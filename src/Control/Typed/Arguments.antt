-- ===== src/Control/Typed/Arguments.antt =====
-- Under which names the arguments of an action are sent.
use libupnpp.Prelude.{
  ◌==◌, true, false, List, [], ◌∷◌, ◌++◌, ◌≡◌, refl, sym, ap, ◌∙◌, arith, append_assoc, append-nil,
  none, some, if◌then◌else◌, Bool-cases, inl, inr, length, Bytes, All, find,
}
use libupnpp.Soap.{SoapOutgoing, add_arg}
use libupnpp.Control.{Service, Lib, no_data, plain_call, run_action}
use libupnpp.Control.Typed.{
  Argument, TypedService, count_out, add_args, take_data, send_args, act_with, typed_run_action,
}

-- The arguments with their values, in order.
abbrev pub named : List Argument → List Bytes → List (Bytes × Bytes)
named [] vs = []
named (a ∷ ins) [] = []
named (a ∷ ins) (v ∷ vs) = (a.name, v) ∷ named ins vs

abbrev pub ToDevice : Argument → Type 0
ToDevice a = a.todevice ≡ true

abbrev pub FromDevice : Argument → Type 0
FromDevice a = a.todevice ≡ false

count_out-from : (outs : List Argument) → All FromDevice outs → count_out outs ≡ 0
count_out-from [] h = refl
count_out-from (a ∷ outs) (h, hs) = ground (arith, h, count_out-from outs hs)

count_out-to :
    (ins outs : List Argument)
    → All ToDevice ins
    → All FromDevice outs
    → count_out (ins ++ outs) ≡ length ins
count_out-to [] outs h k = count_out-from outs k
count_out-to (a ∷ ins) outs (h, hs) k = ground (arith, h, count_out-to ins outs hs k)

add_args-named :
    (ins outs : List Argument) (vs : List Bytes) (out : SoapOutgoing)
    → length ins ≡ length vs
    → add_args (ins ++ outs) vs out ≡ some (record out { args = out.args ++ named ins vs })
unfolding add_arg
add_args-named [] outs [] out h =
    ap (λ l. some (record out { args = l })) (sym (append-nil out.args))
add_args-named [] outs (v ∷ vs) out h = absurd (omega (arith, h))
add_args-named (a ∷ ins) outs [] out h = absurd (omega (arith, h))
add_args-named (a ∷ ins) outs (v ∷ vs) out h =
    add_args-named ins outs vs (add_arg a.name v out) (omega (arith, h))
    ∙ ap (λ l. some (record out { args = l }))
        (append_assoc out.args ((a.name, v) ∷ []) (named ins vs))

module _ {W : Type 0} where
  -- An action whose arguments to the device come before its results is sent, if it is given a value for
  -- each of them, with every value under its own name and in order; if the number of the values is
  -- another, nothing is sent and the result is the invalid-arguments one. In both cases the caller's map
  -- is replaced only by the data of a success.
  pub typed_run_action-named :
      (lib : Lib W) (t : TypedService) (s : Service) (act : Bytes) (vs : List Bytes)
      (old : List (Bytes × Bytes)) (ins outs : List Argument) (w : W)
      → find act t.actions ≡ some (ins ++ outs)
      → All ToDevice ins
      → All FromDevice outs
      → typed_run_action lib t s act vs old w ≡ (
          if length ins == length vs
          then take_data old (
              run_action lib s
                (record { service_type = s.service_type; name = act; args = named ins vs })
                no_data
                none
                w)
          else some ((lib.codes.invalid_args, old), w))
  unfolding typed_run_action act_with send_args
  typed_run_action-named lib t s act vs old ins outs w e hi ho =
      ap (λ o. act_with lib s act vs old o w) e
      ∙ ap
          (λ n.
            if n == length vs
            then send_args lib s old (add_args (ins ++ outs) vs (plain_call s act)) w
            else some ((lib.codes.invalid_args, old), w))
          (count_out-to ins outs hi ho)
      ∙ elim (Bool-cases (length ins == length vs)) [
        | inl h ↦ rw h (
            ap (λ o. send_args lib s old o w)
              (add_args-named ins outs vs (plain_call s act) (ground (arith, h))))
        | inr h ↦ rw h refl
      ]
