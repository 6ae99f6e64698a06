-- ===== src/Bisect/Releases.antt =====
-- `Release`, `parse_releases` and `select_window` of bisect.py. `fnmatch` is the standard library's.
use sbc_mcu_dut_controller.Prelude.{
  ℕ, suc, ◌+◌, ◌-◌, String, Bool, true, false, ◌&&◌, Option, none, some, List, [], ◌∷◌,
  if◌then◌else◌, ltb, leb, ◌==◌, str_eq, or_else, find_first, take, drop,
}
use sbc_mcu_dut_controller.Bisect.Version.{Key, version_key}

pub record Release : Type 0 where
  pub tag : String
  pub key : Key
  pub asset_url : String
  pub asset_name : String

-- One entry of GitHub's `/releases`.
pub record Asset : Type 0 where
  pub name : String
  pub browser_download_url : String

pub record GhRelease : Type 0 where
  pub tag_name : Option String
  pub name : Option String
  pub assets : List Asset

-- Python compares tuples in lexicographic order.
unfoldable pub key_leb : Key → Key → Bool
key_leb a b =
    if ltb a.x b.x
    then true
    else if ltb b.x a.x
    then false
    else if ltb a.y b.y
    then true
    else if ltb b.y a.y
    then false
    else if ltb a.z b.z
    then true
    else if ltb b.z a.z
    then false
    else leb a.beta b.beta

unfoldable pub key_eq : Key → Key → Bool
key_eq a b = a.x == b.x && a.y == b.y && a.z == b.z && a.beta == b.beta

-- `out.sort(key=…)` is stable: a release goes behind those with an equal key that stand before it.
unfoldable pub insert_release : Release → List Release → List Release
unfolding key_leb
insert_release r [] = r ∷ []
insert_release r (s ∷ ss) = if key_leb r.key s.key then r ∷ s ∷ ss else s ∷ insert_release r ss

unfoldable pub sort_releases : List Release → List Release
unfolding insert_release
sort_releases [] = []
sort_releases (r ∷ rs) = insert_release r (sort_releases rs)

-- `rel.get("tag_name") or rel.get("name") or ""`
abbrev pub tag_of : GhRelease → String
tag_of rel = elim (or_else rel.tag_name rel.name) [ some t ↦ t | none ↦ "" ]

module _ (fnmatch : String → String → Bool) (asset_glob : String) where
  -- The body of the loop: the release that is appended, if any.
  unfoldable pub candidate : GhRelease → Option Release
  candidate rel = elim (version_key (tag_of rel)) [
    | none ↦ none
    | some key ↦ elim (find_first (λ (a : Asset). fnmatch a.name asset_glob) rel.assets) [
      | none ↦ none
      | some asset ↦ some (record {
        tag = tag_of rel;
        key = key;
        asset_url = asset.browser_download_url;
        asset_name = asset.name;
      })
    ]
  ]

  abbrev pub push : Option Release → List Release → List Release
  push none rs = rs
  push (some r) rs = r ∷ rs

  unfoldable pub candidates : List GhRelease → List Release
  unfolding candidate
  candidates [] = []
  candidates (rel ∷ rels) = push (candidate rel) (candidates rels)

  unfoldable pub parse_releases : List GhRelease → List Release
  unfolding candidates sort_releases
  parse_releases gh_json = sort_releases (candidates gh_json)

-- `{r.tag: i}`: the index of the last release with the tag.
unfoldable pub last_index : (Release → Bool) → ℕ → List Release → Option ℕ
last_index p i [] = none
last_index p i (r ∷ rs) = elim (last_index p (suc i) rs) [
  | some j ↦ some j
  | none ↦ if p r then some i else none
]

unfoldable pub first_index : (Release → Bool) → ℕ → List Release → Option ℕ
first_index p i [] = none
first_index p i (r ∷ rs) = let later = first_index p (suc i) rs in if p r then some i else later

-- `_find`; none stands for the ValueError.
unfoldable pub find_ref : List Release → String → Option ℕ
unfolding last_index first_index key_eq
find_ref releases ref = elim (last_index (λ r. str_eq r.tag ref) 0 releases) [
  | some i ↦ some i
  | none ↦ elim (version_key ref) [
    | none ↦ none
    | some key ↦ first_index (λ r. key_eq r.key key) 0 releases
  ]
]

pub record Selection : Type 0 where
  pub window : List Release
  pub working_idx : ℕ
  pub broken_idx : ℕ

-- releases[lo : hi + 1] and the places of the two ends in it
abbrev pub cut_window : List Release → ℕ → ℕ → Selection
cut_window releases wi bi =
    let lo : ℕ = if leb wi bi then wi else bi in
    let hi : ℕ = if leb wi bi then bi else wi in
    record {
      window = take (hi + 1 - lo) (drop lo releases);
      working_idx = wi - lo;
      broken_idx = bi - lo;
    }

unfoldable pub select_window : List Release → String → String → Option Selection
unfolding find_ref
select_window releases working_ref broken_ref = elim (find_ref releases working_ref) [
  | none ↦ none
  | some wi ↦ elim (find_ref releases broken_ref) [
    | none ↦ none
    | some bi ↦ some (cut_window releases wi bi)
  ]
]
