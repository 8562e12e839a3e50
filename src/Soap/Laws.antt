-- ===== src/Soap/Laws.antt =====
-- What is read of the arguments that were written.
use libupnpp.Prelude.{
  ℕ, zero, suc, ◌<◌, ◌≤◌, ◌^◌, Bool, true, false, List, [], ◌∷◌, ◌++◌, ◌≡◌, refl, sym, ap, ◌∙◌,
  arith, Option, none, some, inl, inr, if◌then◌else◌, Bool-cases, Bytes, codes, beq, beq→eq,
  beq_refl, some-injective, find,
}
use libupnpp.Prelude.Int.{ℤ, pos, negsuc, pos_part, neg_part}
use libupnpp.Text.Decimal.{atoi, i2s}
use libupnpp.Text.Decimal.Print.{atoi-i2s, i2s_zero, i2s_one, atoi_nil}
use libupnpp.Soap.{
  SoapIncoming, SoapOutgoing, string_to_bool, insert_one, insert_all, add_arg, int_of, bool_of,
  get_bool, get_int, get_string, val2s_bool,
}

abbrev pub or_else {ℓ} : {A : Type ℓ} → Option A → Option A → Option A
or_else none o = o
or_else (some a) o = some a

or_else-none {ℓ} : {A : Type ℓ} (o : Option A) → or_else o none ≡ o
or_else-none none = refl
or_else-none (some a) = refl

or_else_assoc {ℓ} :
    {A : Type ℓ} (o p q : Option A) → or_else (or_else o p) q ≡ or_else o (or_else p q)
or_else_assoc none p q = refl
or_else_assoc (some a) p q = refl

or_else-if {ℓ} :
    {A : Type ℓ} (b : Bool) (a : A) (o : Option A)
    → or_else (if b then some a else none) o ≡ (if b then some a else o)
or_else-if true a o = refl
or_else-if false a o = refl

pub find-append :
    (k : Bytes) (m n : List (Bytes × Bytes)) → find k (m ++ n) ≡ or_else (find k m) (find k n)
unfolding find
find-append k [] n = refl
find-append k ((j, v) ∷ m) n = elim (Bool-cases (beq j k)) [
  | inl e ↦ rw e refl
  | inr e ↦ rw e (find-append k m n)
]

find-insert_one :
    (k j v : _) (o : Option Bytes) (m : List (Bytes × Bytes))
    → o ≡ find j m
    → find k (insert_one (j, v) o m) ≡ or_else (find k m) (if beq j k then some v else none)
unfolding find
find-insert_one k j v none m e = find-append k m ((j, v) ∷ [])
find-insert_one k j v (some w) m e = elim (Bool-cases (beq j k)) [
  | inl h ↦ let f : find k m ≡ some w = ap (λ t. find t m) (sym (beq→eq j k h)) ∙ sym e in rw f refl
  | inr h ↦ rw h (sym (or_else-none (find k m)))
]

-- A range that is inserted into a map: a key of the map keeps its value, a new one gets the first value
-- that the range has for it.
pub find-insert_all :
    (k : Bytes) (ps m : List (Bytes × Bytes))
    → find k (insert_all ps m) ≡ or_else (find k m) (find k ps)
unfolding insert_all find
find-insert_all k [] m = sym (or_else-none (find k m))
find-insert_all k ((j, v) ∷ ps) m =
    find-insert_all k ps (insert_one (j, v) (find j m) m)
    ∙ ap (λ o. or_else o (find k ps)) (find-insert_one k j v (find j m) m refl)
    ∙ or_else_assoc (find k m) (if beq j k then some v else none) (find k ps)
    ∙ ap (or_else (find k m)) (or_else-if (beq j k) v (find k ps))

-- What the other side receives of these arguments.
abbrev pub received : SoapOutgoing → SoapIncoming
received out = record { name = out.name; args = insert_all out.args [] }

-- The other side reads the value that was added, if the name had none before.
pub get_string-add_arg :
    (k v : Bytes) (out : SoapOutgoing)
    → find k out.args ≡ none
    → get_string k (received (add_arg k v out)) ≡ some v
unfolding get_string add_arg find
get_string-add_arg k v out h =
    find-insert_all k (out.args ++ (k, v) ∷ []) []
    ∙ find-append k out.args ((k, v) ∷ [])
    ∙ ap (λ o. or_else o (if beq k k then some v else none)) h
    ∙ ap (λ b. if b then some v else none) (beq_refl k)

bool_text : (b : Bool) → val2s_bool b ≡ some (if b then codes "1" else codes "0")
unfolding val2s_bool
bool_text true = i2s_one
bool_text false = i2s_zero

bool_of_text : (b : Bool) → bool_of (some (if b then codes "1" else codes "0")) ≡ some b
unfolding string_to_bool
bool_of_text true = refl
bool_of_text false = refl

no_pos : {n : ℕ} → pos 0 ≡ pos (suc n) → ⊥
no_pos e = cc

no_neg : {n : ℕ} → pos 0 ≡ negsuc n → ⊥
no_neg e = cc

int_text_read : (z : ℤ) (s : Bytes) → i2s z ≡ some s → atoi s ≡ z → int_of (some s) ≡ some z
int_text_read (pos zero) s e h =
    ap int_of (sym e ∙ i2s_zero)
    ∙ ap some (sym (ap atoi (some-injective _ _ (sym e ∙ i2s_zero))) ∙ h)
int_text_read (pos (suc n)) [] e h = absurd (no_pos (sym atoi_nil ∙ h))
int_text_read (pos (suc n)) (c ∷ s) e h = ap some h
int_text_read (negsuc n) [] e h = absurd (no_neg (sym atoi_nil ∙ h))
int_text_read (negsuc n) (c ∷ s) e h = ap some h

-- Values go through the arguments of an action: a Boolean that is added under a name that had none is
-- read back by `get`, and so is every int.
pub get-add_arg :
    (k : Bytes) (b : Bool) (z : ℤ) (out : SoapOutgoing)
    → pos_part z < 2 ^ 31
    → neg_part z ≤ 2 ^ 31
    → find k out.args ≡ none
    → (s : Bytes) × (t : Bytes) × (val2s_bool b ≡ some s)
      × (i2s z ≡ some t)
      × (get_bool k (received (add_arg k s out)) ≡ some b)
      × (get_int k (received (add_arg k t out)) ≡ some z)
unfolding get_bool get_int get_string
get-add_arg k b z out hp hn h =
    let s = if b then codes "1" else codes "0" in
    let (t, et, back) = atoi-i2s z (omega arith) (omega arith) in
    (
      s,
      t,
      bool_text b,
      et,
      ap bool_of (get_string-add_arg k s out h) ∙ bool_of_text b,
      ap int_of (get_string-add_arg k t out h) ∙ int_text_read z t et back,
    )
