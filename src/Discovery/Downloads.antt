-- ===== src/Discovery/Downloads.antt =====
-- Which descriptions are downloaded at the same time, and what comes out of the downloads.
use libupnpp.Prelude.{
  ◌+◌, ◌≤◌, Bool, true, false, List, [], ◌∷◌, ◌++◌, ◌||◌, ◌≡◌, refl, ap, arith, Option, none, some,
  if◌then◌else◌, Bool-cases, inl, inr, Bytes, beq, beq_iff, count, count-append,
}
use libupnpp.Discovery.{Task}
use libupnpp.Discovery.Messages.{
  UpnpDiscovery, Message, Traffic, member, without, put_task, begin_download, on_arrival,
  discovered_task, clu_call_back, put_downloaded, downloaded, has_text, Step, Reach,
}

abbrev pub urls : List Task → List Bytes
urls [] = []
urls (t ∷ ts) = t.url ∷ urls ts

urls-append : (ts us : List Task) → urls (ts ++ us) ≡ urls ts ++ urls us
urls-append [] us = refl
urls-append (t ∷ ts) us = ap (◌∷◌ t.url) (urls-append ts us)

count_running :
    (k : Bytes) (xs ys : List Task) (t : Task)
    → count k (urls (xs ++ t ∷ ys)) ≡ (if beq t.url k then 1 else 0) + count k (urls (xs ++ ys))
count_running k [] ys t = refl
count_running k (x ∷ xs) ys t = ground (arith, count_running k xs ys t)

count-without :
    (k j : Bytes) (js : List Bytes) → count k (without j js) ≡ (if beq j k then 0 else count k js)
count-without k j [] = ground arith
count-without k j (i ∷ js) =
    ground (arith, beq_iff j k, beq_iff i j, beq_iff i k, count-without k j js)

not_member : (k : Bytes) (js : List Bytes) → member k js ≡ false → count k js ≡ 0
not_member k [] h = refl
not_member k (j ∷ js) h = ground (arith, h, not_member k js)

-- The set holds the addresses of the running downloads, each once.
abbrev pub IsExclusive : Traffic → Type 0
IsExclusive s =
    (k : Bytes) → (count k (urls s.running) ≡ count k s.downloading) × (count k s.downloading ≤ 1)

put_task-IsExclusive :
    (accepted : Bool) (t : Task) (s : Traffic) → IsExclusive s → IsExclusive (put_task accepted t s)
put_task-IsExclusive true t s h = h
put_task-IsExclusive false t s h = h

begin_download-IsExclusive :
    (t : Task) (s : Traffic) → IsExclusive s → IsExclusive (begin_download t s)
begin_download-IsExclusive t s h = elim (Bool-cases (member t.url s.downloading)) [
  | inl e ↦ rw e h
  | inr e ↦ rw e (λ k. ground (
    arith,
    h k,
    h t.url,
    ap (count k) (urls-append s.running (t ∷ [])),
    count-append k (urls s.running) (t.url ∷ []),
    count-append k s.downloading (t.url ∷ []),
    not_member t.url s.downloading e,
    beq_iff t.url k,
  ))
]

on_arrival-IsExclusive :
    (disco : UpnpDiscovery) (s : Traffic) → IsExclusive s → IsExclusive (on_arrival disco s)
on_arrival-IsExclusive disco s h =
    elim (Bool-cases (has_text disco.device_type || has_text disco.service_type)) [
      | inl e ↦ rw e h
      | inr e ↦ rw e (begin_download-IsExclusive (discovered_task true disco) s h)
    ]

clu_call_back-IsExclusive :
    (accepted : Bool) (m : Message) (s : Traffic)
    → IsExclusive s
    → IsExclusive (clu_call_back accepted m s)
unfolding clu_call_back
clu_call_back-IsExclusive accepted (Message.search_result disco) s h =
    on_arrival-IsExclusive disco s h
clu_call_back-IsExclusive accepted (Message.alive disco) s h = on_arrival-IsExclusive disco s h
clu_call_back-IsExclusive accepted (Message.bye_bye disco) s h =
    put_task-IsExclusive accepted (discovered_task false disco) s h
clu_call_back-IsExclusive accepted Message.other_message s h = h

downloaded-IsExclusive :
    (accepted : Bool) (text : Option Bytes) (xs ys : List Task) (t : Task) (s : Traffic)
    → s.running ≡ xs ++ t ∷ ys
    → IsExclusive s
    → IsExclusive (downloaded accepted t text (xs ++ ys) s)
unfolding downloaded
downloaded-IsExclusive accepted text xs ys t s e h = put_one text
  where
    rest : Traffic
    rest = record s { downloading = without t.url s.downloading; running = xs ++ ys }

    left : IsExclusive rest
    left k = ground (
      arith,
      h k,
      ap (λ l. count k (urls l)) e,
      count_running k xs ys t,
      count-without k t.url s.downloading,
    )

    put_one : (o : Option Bytes) → IsExclusive (put_downloaded accepted t o rest)
    put_one none = left
    put_one (some d) = put_task-IsExclusive accepted (record t { description = d }) rest left

-- In every state that the threads reach, whatever messages arrive and however the downloads end, no
-- address is downloaded twice at the same time, and the set of addresses is exactly that of the running
-- downloads: none is left behind by a failed one.
pub Reach-IsExclusive : (s : Traffic) → Reach s → IsExclusive s
Reach-IsExclusive _ Reach.at_start = λ k. (refl, omega arith)
Reach-IsExclusive _ (Reach.then_step s _ r (Step.starts accepted m _)) =
    clu_call_back-IsExclusive accepted m s (Reach-IsExclusive s r)
Reach-IsExclusive _ (Reach.then_step s _ r (Step.ends accepted text xs ys t _ e)) =
    downloaded-IsExclusive accepted text xs ys t s e (Reach-IsExclusive s r)
