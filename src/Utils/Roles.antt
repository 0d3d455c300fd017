-- ===== src/Utils/Roles.antt =====
-- src/utils/roles.rs: the rank of a role in its guild, and the highest role of a member.
pub mod Highest
use benny_rs.Base.{
  ℕ, Bool, ◌&&◌, ◌||◌, Option, none, some, List, [], ◌∷◌, ◌++◌, ltb, leb, ◌==◌, if◌then◌else◌,
}
use benny_rs.Base.Equality.{nat_eq}
use benny_rs.Base.Dict.{lookup}

-- The fields of a role that are read.
pub record Role : Type 0 where
  pub id : ℕ
  pub position : ℕ

-- `role_rank(a) <= role_rank(b)`: the position decides, and at equal positions the larger id is the
-- lower.
unfoldable pub rank_le : Role → Role → Bool
rank_le a b = ltb a.position b.position || (a.position == b.position && leb b.id a.id)

-- `max_by_key`, which keeps the last of the highest.
unfoldable pub highest_from : Role → List Role → Role
unfolding rank_le
highest_from best [] = best
highest_from best (r ∷ rs) =
    let kept = highest_from best rs in
    let replaced = highest_from r rs in if rank_le best r then replaced else kept

abbrev pub highest : List Role → Option Role
highest [] = none
highest (r ∷ rs) = some (highest_from r rs)

-- `filter_map(|rid| roles.get(rid))`
abbrev pub found : List (ℕ × Role) → List ℕ → List Role
found roles [] = []
found roles (id ∷ ids) =
    let rest = found roles ids in elim (lookup id roles) [ none ↦ rest | some r ↦ r ∷ rest ]

abbrev pub to_list : Option Role → List Role
to_list none = []
to_list (some r) = r ∷ []

unfoldable pub top_role : List ℕ → List (ℕ × Role) → ℕ → Option Role
unfolding highest_from
top_role member_roles roles everyone =
    highest (found roles member_roles ++ to_list (lookup everyone roles))
