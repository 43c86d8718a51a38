-- ===== src/Localport/Verify.antt =====
-- `verify_lsp_type`: the northbound row of the port is looked up a few times, and the first one
-- that is seen decides.
use neutron_local_services_p.Base.{
  ℕ, zero, suc, String, ◌≡◌, refl, Bool, true, false, Option, none, some, ◌==◌, List, [], ◌∷◌,
  string_eq, if◌then◌else◌, arith,
}
use neutron_local_services_p.Errors.{Result, ok, err, lsp_verify}
use neutron_local_services_p.CorePlugin.{OvnConstants}

-- One answer of `nb_ovn.lookup`: an exception, no row, or a row with its `type` attribute.
pub data Lookup : Type 0 where
  raised missing : Lookup
  row : Option String → Lookup

-- `getattr(lsp, 'type', '') or ''`
abbrev type_of : Option String → String
type_of none = ""
type_of (some t) = t

-- What the lookups of `n` rounds from round `i` on give.
abbrev pub answers : ℕ → ℕ → (ℕ → Lookup) → List Lookup
answers zero i answer = []
answers (suc n) i answer = answer i ∷ answers n (suc i) answer

-- The type of the first row among them, where a row without a type has the empty one.
abbrev pub first_row : List Lookup → Option String
first_row [] = none
first_row (raised ∷ rest) = first_row rest
first_row (missing ∷ rest) = first_row rest
first_row (row none ∷ rest) = some ""
first_row (row (some t) ∷ rest) = some t

module _ (O : OvnConstants) where
  -- The loop, with `retries` rounds left; `answer i` is what the lookup of round `i` gives.
  unfoldable pub verify_rounds : ℕ → ℕ → (ℕ → Lookup) → Result (Option String)
  verify_rounds zero i answer = ok none
  verify_rounds (suc retries) i answer =
      let again = verify_rounds retries (suc i) answer in
      elim (answer i) [
        | raised ↦ again
        | missing ↦ again
        | row t ↦
            if type_of t == O.lsp_type_localport
            then ok (some (type_of t))
            else err (lsp_verify (type_of t))
      ]

  -- With no OVN driver, or one without a northbound connection, there is no check.
  unfoldable pub verify_lsp_type : Bool → ℕ → (ℕ → Lookup) → Result (Option String)
  unfolding verify_rounds
  verify_lsp_type available retries answer =
      if available then verify_rounds retries 0 answer else ok none

  abbrev pub verdict : Option String → Result (Option String)
  verdict none = ok none
  verdict (some t) = if t == O.lsp_type_localport then ok (some t) else err (lsp_verify t)

  round_judged :
      (n i : ℕ) (answer : ℕ → Lookup) (a : Lookup)
      → answer i ≡ a
      → verify_rounds n (suc i) answer ≡ verdict (first_row (answers n (suc i) answer))
      → verify_rounds (suc n) i answer ≡ verdict (first_row (a ∷ answers n (suc i) answer))
  unfolding verify_rounds
  round_judged n i answer raised e h = ground arith
  round_judged n i answer missing e h = ground arith
  round_judged n i answer (row none) e h = ground arith
  round_judged n i answer (row (some t)) e h = ground arith

  rounds_judged :
      (n i : ℕ) (answer : ℕ → Lookup)
      → verify_rounds n i answer ≡ verdict (first_row (answers n i answer))
  unfolding verify_rounds
  rounds_judged zero i answer = refl
  rounds_judged (suc n) i answer =
      round_judged n i answer (answer i) refl (rounds_judged n (suc i) answer)

  -- The check passes without a row, and with a first row of type `localport`; it raises if the first
  -- row is of another type.
  pub verify_lsp_type-judged :
      (available : Bool) (retries : ℕ) (answer : ℕ → Lookup)
      → verify_lsp_type available retries answer
        ≡ verdict (if available then first_row (answers retries 0 answer) else none)
  unfolding verify_lsp_type
  verify_lsp_type-judged true retries answer = rounds_judged retries 0 answer
  verify_lsp_type-judged false retries answer = refl
