-- ===== src/Reconcilers/HelmCharts/Sort/Fuel.antt =====
-- The depth of the walk of sortChartConfigsByDependencies, in internal/upgrade/reconcilers/helm.go:
-- lists of different keys of a map.
use elemental_lifecycle_mana.Prelude.{
  suc, String, Bool, true, false, List, [], ◌∷◌, ◌≡◌, refl, ◌==◌, ◌&&◌, not, leb, length, all,
  is_some, lookup, eq_iff, eq_refl, arith,
}
use elemental_lifecycle_mana.Config.{HelmChartConfig, delete_key}
use elemental_lifecycle_mana.Reconcilers.HelmCharts.Sort.{member}

abbrev pub Charts : Type 0
Charts = List (String × HelmChartConfig)

abbrev pub is_known : Charts → String → Bool
is_known charts k = is_some (lookup k charts)

abbrev pub are_distinct : List String → Bool
are_distinct [] = true
are_distinct (k ∷ ks) = let rest = are_distinct ks in not (member k ks) && rest

delete_key-absent : (j : String) (ks : List String) → member j ks ≡ false → delete_key j ks ≡ ks
unfolding delete_key member
delete_key-absent j [] h = refl
delete_key-absent j (k ∷ ks) h = ground (arith, delete_key-absent j ks)

pub delete_key-head :
    (j : String) (ks : List String) → member j ks ≡ false → delete_key j (j ∷ ks) ≡ ks
unfolding delete_key
delete_key-head j ks h = ground (arith, eq_refl j, delete_key-absent j ks h)

member-delete_key :
    (k j : String) (ks : List String) → member k (delete_key j ks) ≡ (member k ks && not (j == k))
unfolding delete_key member
member-delete_key k j [] = refl
member-delete_key k j (i ∷ ks) =
    ground (arith, member-delete_key k j ks, eq_iff i j, eq_iff i k, eq_iff j k)

length-delete_key :
    (j : String) (ks : List String)
    → are_distinct ks ≡ true
    → leb (length ks) (suc (length (delete_key j ks))) ≡ true
unfolding delete_key
length-delete_key j [] h = refl
length-delete_key j (k ∷ ks) h =
    ground (arith, eq_iff k j, length-delete_key j ks, delete_key-absent j ks)

are_distinct-delete_key :
    (j : String) (ks : List String) → are_distinct ks ≡ true → are_distinct (delete_key j ks) ≡ true
unfolding delete_key
are_distinct-delete_key j [] h = refl
are_distinct-delete_key j (k ∷ ks) h =
    ground (arith, are_distinct-delete_key j ks, member-delete_key k j ks)

is_known-delete_key :
    (j : String) (c : HelmChartConfig) (charts : Charts) (ks : List String)
    → all (is_known ((j, c) ∷ charts)) ks ≡ true
    → all (is_known charts) (delete_key j ks) ≡ true
unfolding delete_key lookup
is_known-delete_key j c charts [] h = refl
is_known-delete_key j c charts (k ∷ ks) h =
    ground (arith, eq_iff k j, eq_iff j k, is_known-delete_key j c charts ks)

none_known : (ks : List String) → all (is_known []) ks ≡ true → ks ≡ []
unfolding lookup
none_known [] h = refl
none_known (k ∷ ks) h = cc

pub length-distinct_known :
    (charts : Charts) (ks : List String)
    → are_distinct ks ≡ true
    → all (is_known charts) ks ≡ true
    → leb (length ks) (length charts) ≡ true
length-distinct_known [] ks d h = rw (none_known ks h) refl
length-distinct_known ((j, c) ∷ charts) ks d h = ground (
  arith,
  length-delete_key j ks d,
  length-distinct_known charts (delete_key j ks) (are_distinct-delete_key j ks d)
      (is_known-delete_key j c charts ks h),
)
