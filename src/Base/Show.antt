-- ===== src/Base/Show.antt =====
-- Integers as decimal text: `to_string` and `parse` of the program's integer types.
pub mod RoundTrip
use benny_rs.Base.Tests.{ltb, leb, ◌==◌, if◌then◌else◌}
use benny_rs.Base.Int.{ℤ, pos, negsuc}
use benny_rs.Base.Text.{Text, peek_is, rest_of, is_digit, digits_from, digits_value}
use Prim.Native.Nat.{ℕ, zero, suc, ◌+◌, ◌-◌, ◌*◌, ◌/◌, ◌%◌, ◌^◌, ◌≤◌, ◌<◌}
use mathlib.Core.Path.{◌≡◌, refl, ap, ◌∙◌}
use mathlib.Core.Bool.{Bool, true, false, ◌&&◌}
use mathlib.Core.Logic.{inl, inr}
use mathlib.Core.Option.{Option, none, some}
use mathlib.Core.List.{List, [], ◌∷◌, ◌++◌, append_assoc}
use native.Mathlib.Omega.{arith}

-- The last digit stands behind the text of the others; `n` is fuel enough for itself.
unfoldable pub show_from : ℕ → ℕ → Text
show_from zero n = (b'0' + n % 10) ∷ []
show_from (suc fuel) n =
    let front = show_from fuel (n / 10) in
    let digit = b'0' + n % 10 in if ltb n 10 then digit ∷ [] else front ++ digit ∷ []

unfoldable pub show_ℕ : ℕ → Text
unfolding show_from
show_ℕ n = show_from n n

unfoldable pub show_ℤ : ℤ → Text
unfolding show_ℕ
show_ℤ (pos n) = show_ℕ n
show_ℤ (negsuc n) = b'-' ∷ show_ℕ (suc n)

abbrev signed : Bool → ℕ → Option ℤ
signed false n = if ltb n (2 ^ 63) then some (pos n) else none
signed true zero = some (pos 0)
signed true (suc n) = if ltb n (2 ^ 63) then some (negsuc n) else none

-- `parse` at `i64`
unfoldable pub parse_i64 : Text → Option ℤ
unfolding digits_from
parse_i64 s =
    if peek_is b'-' s
    then elim (digits_value (rest_of s)) [ none ↦ none | some n ↦ signed true n ]
    else elim (digits_value (if peek_is b'+' s then rest_of s else s)) [
      | none ↦ none
      | some n ↦ signed false n
    ]
