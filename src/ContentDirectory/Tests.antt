-- ===== src/ContentDirectory/Tests.antt =====
-- The theorem on reading at a server with three entries, which reads the arguments of the calls.
use libupnpp.Prelude.{
  ℕ, zero, suc, ◌+◌, ◌≤◌, true, List, [], ◌∷◌, ◌++◌, ◌≡◌, refl, arith, Option, none, some, drop,
  length, length-drop, Bytes, codes, find,
}
use libupnpp.Prelude.Int.{ℤ, pos, negsuc}
use libupnpp.Text.Decimal.{atoi}
use libupnpp.Control.{Service, Lib, Client}
use libupnpp.ContentDirectory.{read_dir}
use libupnpp.ContentDirectory.Serving.{at_most, length-take, served, Serves}
use libupnpp.ContentDirectory.Reading.{Reads, read_dir-Serves}

abbrev tracks : List Bytes
tracks = codes "a" ∷ codes "b" ∷ codes "c" ∷ []

abbrev digit : ℕ → Bytes
digit n = (b'0' + n) ∷ []

abbrev write : List Bytes → Bytes
write [] = []
write (t ∷ ts) = t ++ write ts

abbrev add_text : Bytes → Bytes → Bytes
add_text t b = b ++ t

abbrev number_of : Option Bytes → ℤ
unfolding atoi
number_of none = negsuc 0
number_of (some t) = atoi t

-- The answer for a position and a number.
abbrev answer_for : ℕ → ℤ → ℤ → List (Bytes × Bytes)
answer_for most (pos offset) (pos count) =
    let slice = served most tracks offset count in
    (codes "Result", write slice)
    ∷ (codes "NumberReturned", digit (length slice))
    ∷ (codes "TotalMatches", digit 3)
    ∷ (codes "UpdateID", codes "1")
    ∷ []
answer_for most _ _ = []

abbrev three_entries : ℕ → Client ℕ
unfolding number_of find
three_entries most = record {
  subscribe = λ url t sid w. ((pos 0, []), w);
  un_subscribe = λ sid w. (pos 0, w);
  send_action = λ url st act args response w. (
    (
      pos 0,
      answer_for most (number_of (find (codes "StartingIndex") args))
          (number_of (find (codes "RequestedCount") args)),
    ),
    w,
  );
}

abbrev server : ℕ → Lib ℕ
unfolding three_entries
server most = record {
  present = true;
  subs_timeout = pos 1800;
  codes = record {
    success = pos 0;
    outof_memory = negsuc 103;
    bad_response = negsuc 112;
    invalid_action = negsuc 115;
    invalid_args = pos 402;
  };
  client = three_entries most;
}

abbrev media : Service
media = record {
  reporter = none;
  action_url = [];
  event_url = [];
  service_type = [];
  device_id = [];
  friendly_name = [];
  manufacturer = [];
  model_name = [];
  sid = [];
}

digit_read : (n : ℕ) → n ≤ 3 → atoi (digit n) ≡ pos n
unfolding atoi
digit_read zero h = refl
digit_read (suc zero) h = refl
digit_read (suc (suc zero)) h = refl
digit_read (suc (suc (suc zero))) h = refl
digit_read (suc (suc (suc (suc n)))) h = absurd (omega (arith, h))

served_few : (most offset count : ℕ) → length (served most tracks offset count) ≤ 3
served_few most offset count =
    ground (arith, length-take (at_most most count) (drop offset tracks), length-drop offset tracks)

server-Serves : (most : ℕ) → Serves (server most) media (codes "0") most write tracks
unfolding server three_entries number_of find
server-Serves most offset count o c w eo ec h k =
    let slice = served most tracks offset count in
    (
      answer_for most (pos offset) (pos count),
      digit (length slice),
      digit 3,
      w,
      rw (eo, ec) refl,
      (refl, refl, refl),
      digit_read (length slice) (served_few most offset count),
      digit_read 3 (omega arith),
    )

-- Two slices, of which the second is not full.
read_dir-Serves_example :
    Reads
      (λ xs b. add_text (write xs) b)
      (server 2)
      tracks
      []
      (read_dir add_text (server 2) media 2 4 (codes "0") [] 7)
unfolding server
read_dir-Serves_example =
    read_dir-Serves add_text write (server 2) media 2 2 tracks 4 (codes "0") [] 7 refl
      (server-Serves 2) (omega arith) (omega arith) (omega arith) (omega arith) (omega arith)
      (omega arith)

-- A server that gives one entry at a time is left after the first.
short_slices :
    Reads
      (λ xs b. add_text (write xs) b)
      (server 1)
      (codes "a" ∷ [])
      []
      (read_dir add_text (server 1) media 2 4 (codes "0") [] 7)
unfolding server
short_slices =
    read_dir-Serves add_text write (server 1) media 2 1 tracks 4 (codes "0") [] 7 refl
      (server-Serves 1) (omega arith) (omega arith) (omega arith) (omega arith) (omega arith)
      (omega arith)
