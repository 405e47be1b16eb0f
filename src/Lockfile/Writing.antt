-- ===== src/Lockfile/Writing.antt =====
-- `sort_packages` and `to_json` of lockfile.rs: the form of a lock that is written.
use bpm.Prelude.{
  ◌≡◌, ap, ◌≢◌, Bool, true, false, not, ◌&&◌, List, [], ◌∷◌, if◌then◌else◌, All, All-imp, arith,
  inl, inr, Result, ok, Bool-cases,
}
use mathlib.Core.List.{Permᴰ}
use bpm.Prelude.Text.{Text, text_eq}
use bpm.Prelude.Map.{Map, text_lt, text_lt_total, text_le_trans, text_lt_asym}
use bpm.Prelude.Sort.{sort_by, IsSortedBy, AllApart, sort_by_of_IsSortedBy, sort_by-eq_of_perm}
use bpm.Lockfile.Schema.{PackageEntry, PackageResolution, Lockfile}
use bpm.Lockfile.{LockfileError, with_parse_error, Json, from_json}
use bpm.Lockfile.Reading.{from_json-IsCanonical}
use bpm.Lockfile.Canonical.{IsSortedEntries}

-- `a.path.cmp(&b.path)` is not greater
unfoldable pub path_le : PackageEntry → PackageEntry → Bool
path_le a b = not (text_lt b.path a.path)

unfoldable pub sort_packages : Lockfile → Lockfile
unfolding path_le
sort_packages l = record l { packages = sort_by path_le l.packages }

-- `sort()` on texts
abbrev pub sort_texts : List Text → List Text
sort_texts = sort_by (λ a b. not (text_lt b a))

-- `dedup()`: of equal neighbours the first one stays
unfoldable pub dedup : List Text → List Text
dedup [] = []
dedup (a ∷ []) = a ∷ []
dedup (a ∷ b ∷ rest) = let kept = dedup (b ∷ rest) in if text_eq a b then kept else a ∷ kept

abbrev pub map_values {ℓ κ} : {V : Type ℓ} {W : Type κ} → (V → W) → Map V → Map W
map_values f [] = []
map_values f ((k, v) ∷ m) = (k, f v) ∷ map_values f m

unfoldable pub root_resolution_lists : Lockfile → Lockfile
root_resolution_lists l = record l {
  resolution = record l.resolution {
    root = record l.resolution.root {
      workspace_patterns = dedup (sort_texts l.resolution.root.workspace_patterns);
    };
    packages =
        map_values {V = PackageResolution} (λ p. record p { libc = dedup (sort_texts p.libc) })
          l.resolution.packages;
  };
}

-- `print` is `serde_json::to_string_pretty`, with its error message.
unfoldable pub to_json : (Lockfile → Result Text Text) → Lockfile → Result Text LockfileError
to_json print l = with_parse_error (print (root_resolution_lists (sort_packages l)))

-- no two packages have one path
abbrev pub DistinctPaths : List PackageEntry → Type 0
DistinctPaths [] = Unit
DistinctPaths (e ∷ es) = All (λ f. e.path ≢ f.path) es × DistinctPaths es

apart : (a b : PackageEntry) → a.path ≢ b.path → (path_le a b && path_le b a) ≡ false
unfolding path_le
apart a b ne = elim (Bool-cases (text_lt b.path a.path)) [
  | inl before ↦ ground (arith, before)
  | inr not_before ↦ elim (Bool-cases (text_lt a.path b.path)) [
    | inl after ↦ ground (arith, after)
    | inr not_after ↦ absurd (ne (text_lt_total a.path b.path not_after not_before))
  ]
]

distinct-AllApart : (es : List PackageEntry) → DistinctPaths es → AllApart path_le es
distinct-AllApart [] h = tt
distinct-AllApart (e ∷ es) h = (All-imp (λ f ne. apart e f ne) es h.0, distinct-AllApart es h.1)

path_le_total : (a b : PackageEntry) → path_le a b ≡ false → path_le b a ≡ true
unfolding path_le
path_le_total a b h = ground (arith, text_lt_asym b.path a.path)

path_le_trans :
    (a b c : PackageEntry) → path_le a b ≡ true → path_le b c ≡ true → path_le a c ≡ true
unfolding path_le
path_le_trans a b c h k = ground (arith, text_le_trans a.path b.path c.path)

-- Whatever order the packages come in, the same lock is written.
pub to_json_order :
    (print : Lockfile → Result Text Text) (l : Lockfile) (packages : List PackageEntry)
    → Permᴰ l.packages packages
    → DistinctPaths l.packages
    → to_json print l ≡ to_json print (record l { packages = packages })
unfolding to_json sort_packages
to_json_order print l packages p h =
    ap (λ ps. with_parse_error (print (root_resolution_lists (record l { packages = ps }))))
      (sort_by-eq_of_perm path_le path_le_total path_le_trans p (distinct-AllApart l.packages h))

sorted-IsSortedBy : (es : List PackageEntry) → IsSortedEntries es → IsSortedBy path_le es
unfolding path_le
sorted-IsSortedBy [] h = tt
sorted-IsSortedBy (e ∷ es) h = (
  All-imp (λ f lt. ground (arith, text_lt_asym e.path f.path lt)) es h.0,
  sorted-IsSortedBy es h.1,
)

sort_packages_of_sorted : (l : Lockfile) → IsSortedEntries l.packages → sort_packages l ≡ l
unfolding sort_packages
sort_packages_of_sorted l h =
    ap (λ ps. record l { packages = ps })
      (sort_by_of_IsSortedBy path_le l.packages (sorted-IsSortedBy l.packages h))

-- Writing a lock of the current version that was read moves no package.
pub sort_packages_of_read :
    (json : Json) (text : Text) (l : Lockfile)
    → json.version_probe text ≡ ok 2
    → from_json json text ≡ ok l
    → sort_packages l ≡ l
sort_packages_of_read json text l two h =
    sort_packages_of_sorted l (from_json-IsCanonical json text l two h).1.sorted
