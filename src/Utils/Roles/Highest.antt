-- ===== src/Utils/Roles/Highest.antt =====
-- src/utils/roles.rs: the order of the ranks, and the highest role.
use benny_rs.Base.{ℕ, ◌≡◌, refl, ap, ◌∙◌, Bool, true, false, ◌&&◌, some, List, [], ◌∷◌, ◌++◌, arith}
use benny_rs.Base.Equality.{nat_eq}
use benny_rs.Base.Dict.{lookup}
use benny_rs.Utils.Roles.{Role, rank_le, highest_from, highest, found, to_list, top_role}

pub rank_le_total : (a b : Role) → rank_le a b ≡ false → rank_le b a ≡ true
unfolding rank_le
rank_le_total a b h = ground arith

-- Every role of a list ranks no higher than `top`.
pub all_below : Role → List Role → Bool
all_below top [] = true
all_below top (r ∷ rs) = rank_le r top && all_below top rs

highest_of_append : (rs : List Role) (r : Role) → (top : Role) × (highest (rs ++ r ∷ []) ≡ some top)
highest_of_append [] r = (r, unfold highest_from in refl)
highest_of_append (q ∷ rs) r = (highest_from q (rs ++ r ∷ []), refl)

-- Where the role of everyone is known, a member has a highest role.
pub top_role-exists :
    (member_roles : List ℕ) (roles : List (ℕ × Role)) (everyone : ℕ) (r : Role)
    → lookup everyone roles ≡ some r
    → (top : Role) × (top_role member_roles roles everyone ≡ some top)
unfolding top_role
top_role-exists member_roles roles everyone r e =
    let (top, h) = highest_of_append (found roles member_roles) r in
    (top, ap (λ o. highest (found roles member_roles ++ to_list o)) e ∙ h)
