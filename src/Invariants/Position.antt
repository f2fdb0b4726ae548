-- ===== src/Invariants/Position.antt =====
-- `clientPositionKey` of src/invariants.ts (and of src/server.ts): a client and its local sequence
-- number as one text, `${clientId}\u0000${clientSequence}`.
use Prim.Native.Nat.{◌/◌, ◌%◌}
use Prim.Native.Char.{code}
use Prim.Native.String.{◌++◌}
use text.Mathlib.TextLemmas.{nil-append, cons-append, cons-eq-cons}
use sync_engine_v.Base.{
  ℕ, zero, suc, ◌+◌, ◌-◌, ◌*◌, ◌<◌, String, ◌≡◌, refl, sym, ap, subst, ◌∙◌, ◌≢◌, inl, inr, arith,
  ltb, Bool-cases, ltb→lt, ltb→le, if◌then◌else◌,
}

-- the text of a digit
digit_text : ℕ → String
digit_text zero = "0"
digit_text (suc zero) = "1"
digit_text (suc (suc zero)) = "2"
digit_text (suc (suc (suc zero))) = "3"
digit_text (suc (suc (suc (suc zero)))) = "4"
digit_text (suc (suc (suc (suc (suc zero))))) = "5"
digit_text (suc (suc (suc (suc (suc (suc zero)))))) = "6"
digit_text (suc (suc (suc (suc (suc (suc (suc zero))))))) = "7"
digit_text (suc (suc (suc (suc (suc (suc (suc (suc zero)))))))) = "8"
digit_text _ = "9"

-- `${n}` of a safe integer, in decimal; one unit of fuel for each digit
unfoldable pub decimal : ℕ → ℕ → String
unfolding digit_text
decimal zero n = ""
decimal (suc fuel) n =
    let rest = decimal fuel (n / 10) in
    if ltb n 10 then digit_text n else rest ++ digit_text (n % 10)

unfoldable pub client_position_key : String → ℕ → String
unfolding decimal digit_text
client_position_key client_id client_sequence =
    client_id ++ ("\0" ++ decimal (suc client_sequence) client_sequence)

-- The number that a decimal text stands for, after the digits read so far.
value_from : ℕ → String → ℕ
value_from acc String.[] = acc
value_from acc (String.◌∷◌ c s) = value_from (acc * 10 + (code c - 48)) s

NulFree : String → Type 0
NulFree String.[] = Unit
NulFree (String.◌∷◌ c s) = (code c ≢ 0) × NulFree s

value_from-append :
    (acc : ℕ) (s t : String) → value_from acc (s ++ t) ≡ value_from (value_from acc s) t
unfolding value_from
value_from-append acc String.[] t = ap (value_from acc) (nil-append t)
value_from-append acc (String.◌∷◌ c s) t =
    ap (value_from acc) (cons-append c s t) ∙ value_from-append (acc * 10 + (code c - 48)) s t

NulFree-append : (s t : String) → NulFree s → NulFree t → NulFree (s ++ t)
unfolding NulFree
NulFree-append String.[] t hs ht = rw nil-append ht
NulFree-append (String.◌∷◌ c s) t hs ht = rw cons-append (hs.0, NulFree-append s t hs.1 ht)

digit_text-value : (acc d : ℕ) → d < 10 → value_from acc (digit_text d) ≡ acc * 10 + d
unfolding value_from digit_text
digit_text-value acc zero h = omega arith
digit_text-value acc (suc zero) h = omega arith
digit_text-value acc (suc (suc zero)) h = omega arith
digit_text-value acc (suc (suc (suc zero))) h = omega arith
digit_text-value acc (suc (suc (suc (suc zero)))) h = omega arith
digit_text-value acc (suc (suc (suc (suc (suc zero))))) h = omega arith
digit_text-value acc (suc (suc (suc (suc (suc (suc zero)))))) h = omega arith
digit_text-value acc (suc (suc (suc (suc (suc (suc (suc zero))))))) h = omega arith
digit_text-value acc (suc (suc (suc (suc (suc (suc (suc (suc zero)))))))) h = omega arith
digit_text-value acc (suc (suc (suc (suc (suc (suc (suc (suc (suc d))))))))) h = omega arith

digit_text-NulFree : (d : ℕ) → NulFree (digit_text d)
unfolding NulFree digit_text
digit_text-NulFree zero = (omega arith, tt)
digit_text-NulFree (suc zero) = (omega arith, tt)
digit_text-NulFree (suc (suc zero)) = (omega arith, tt)
digit_text-NulFree (suc (suc (suc zero))) = (omega arith, tt)
digit_text-NulFree (suc (suc (suc (suc zero)))) = (omega arith, tt)
digit_text-NulFree (suc (suc (suc (suc (suc zero))))) = (omega arith, tt)
digit_text-NulFree (suc (suc (suc (suc (suc (suc zero)))))) = (omega arith, tt)
digit_text-NulFree (suc (suc (suc (suc (suc (suc (suc zero))))))) = (omega arith, tt)
digit_text-NulFree (suc (suc (suc (suc (suc (suc (suc (suc zero)))))))) = (omega arith, tt)
digit_text-NulFree (suc (suc (suc (suc (suc (suc (suc (suc (suc d))))))))) = (omega arith, tt)

decimal-value : (fuel n : ℕ) → n < fuel → value_from 0 (decimal fuel n) ≡ n
unfolding decimal
decimal-value zero n h = elim h [ ]
decimal-value (suc fuel) n h = elim (Bool-cases (ltb n 10)) [
  | inl small ↦ rw small (digit_text-value 0 n (ltb→lt n 10 small) ∙ omega arith)
  | inr large ↦ rw large (
      rw (value_from-append 0 (decimal fuel (n / 10)) (digit_text (n % 10))) (
        rw (decimal-value fuel (n / 10) (omega (arith, ltb→le n 10 large)))
          (rw (digit_text-value (n / 10) (n % 10) (omega arith)) (omega arith))))
]

decimal-NulFree : (fuel n : ℕ) → NulFree (decimal fuel n)
unfolding decimal
decimal-NulFree zero n = unfold NulFree in tt
decimal-NulFree (suc fuel) n = elim (Bool-cases (ltb n 10)) [
  | inl small ↦ rw small (digit_text-NulFree n)
  | inr large ↦ rw large (
      NulFree-append (decimal fuel (n / 10)) (digit_text (n % 10)) (decimal-NulFree fuel (n / 10))
        (digit_text-NulFree (n % 10)))
]

nul-append : (t : String) → "\0" ++ t ≡ String.◌∷◌ "\0" t
nul-append t = cons-append "\0" "" t ∙ ap (String.◌∷◌ "\0") (nil-append t)

not-NulFree : (s t : String) → ¬ NulFree (s ++ ("\0" ++ t))
unfolding NulFree
not-NulFree String.[] t h = (rw (nil-append, nul-append) at h).0 refl
not-NulFree (String.◌∷◌ c s) t h = not-NulFree s t ((rw (cons-append c s ("\0" ++ t)) at h).1)

-- A text that has no NUL after the separator is split at it in one way only.
split_at_nul :
    (s s' t t' : String)
    → NulFree t
    → NulFree t'
    → s ++ ("\0" ++ t) ≡ s' ++ ("\0" ++ t')
    → (s ≡ s') × (t ≡ t')
split_at_nul String.[] String.[] t t' ht ht' e =
    (refl, (cons-eq-cons.0 (simp (nil-append, nul-append) at e)).1)
split_at_nul String.[] (String.◌∷◌ c s') t t' ht ht' e =
    let tail = (cons-eq-cons.0 (simp (nil-append, cons-append, nul-append) at e)).1 in
    absurd (not-NulFree s' t' (rw nul-append (subst NulFree tail ht)))
split_at_nul (String.◌∷◌ c s) String.[] t t' ht ht' e =
    let tail = (cons-eq-cons.0 (simp (nil-append, cons-append, nul-append) at e)).1 in
    absurd (not-NulFree s t (rw nul-append (subst NulFree (sym tail) ht')))
split_at_nul (String.◌∷◌ c s) (String.◌∷◌ c' s') t t' ht ht' e =
    let parts =
      cons-eq-cons.0 (sym (cons-append c s ("\0" ++ t)) ∙ e ∙ cons-append c' s' ("\0" ++ t')) in
    let rest = split_at_nul s s' t t' ht ht' parts.1 in (cons-eq-cons.1 (parts.0, rest.0), rest.1)

-- Different positions of clients have different keys: equal keys come from equal client ids,
-- whatever characters they have, and equal sequence numbers.
pub client_position_key-injective :
    (c c' : String) (n n' : ℕ)
    → client_position_key c n ≡ client_position_key c' n'
    → (c ≡ c') × (n ≡ n')
unfolding client_position_key
client_position_key-injective c c' n n' e =
    let parts =
      split_at_nul c c' (decimal (suc n) n) (decimal (suc n') n') (decimal-NulFree (suc n) n)
        (decimal-NulFree (suc n') n') e in
    (
      parts.0,
      sym (decimal-value (suc n) n (omega arith))
          ∙ ap (value_from 0) parts.1
          ∙ decimal-value (suc n') n' (omega arith),
    )
