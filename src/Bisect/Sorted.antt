-- ===== src/Bisect/Sorted.antt =====
-- `parse_releases` of bisect.py: sorted, and made of what GitHub's entries give.
use mathlib.Core.List.{Perm}
use mathlib.Core.List.Perm
use sbc_mcu_dut_controller.Prelude.{
  String, Bool, true, false, Option, none, some, List, [], ◌∷◌, ◌≡◌, refl, inl, inr, arith,
  find_first, All, Bool-cases, ◌⊎◌, ◌++◌, ap, sym, ◌∙◌, find_first-none→All,
}
use sbc_mcu_dut_controller.Bisect.Version.{Key, version_key}
use sbc_mcu_dut_controller.Bisect.Releases.{
  Release, GhRelease, Asset, key_leb, insert_release, sort_releases, tag_of, candidate, candidates,
  push, parse_releases,
}

key_leb_total : (a b : Key) → key_leb a b ≡ false → key_leb b a ≡ true
unfolding key_leb
key_leb_total a b h = ground arith

key_leb_trans : (a b c : Key) → key_leb a b ≡ true → key_leb b c ≡ true → key_leb a c ≡ true
unfolding key_leb
key_leb_trans a b c h k = ground arith

-- Each release stands before none with a smaller version.
abbrev pub IsSorted : List Release → Type 0
IsSorted [] = Unit
IsSorted (r ∷ rs) = All (λ s. key_leb r.key s.key ≡ true) rs × IsSorted rs

All-insert :
    (P : Release → Type 0) (r : Release) (rs : List Release)
    → P r
    → All P rs
    → All P (insert_release r rs)
unfolding insert_release
All-insert P r [] h a = (h, tt)
All-insert P r (s ∷ ss) h a = elim (Bool-cases (key_leb r.key s.key)) [
  | inl le ↦ rw le (h, a)
  | inr gt ↦ rw gt (a.0, All-insert P r ss h a.1)
]

All-key_leb :
    (r s : Release) (ss : List Release)
    → key_leb r.key s.key ≡ true
    → All (λ u. key_leb s.key u.key ≡ true) ss
    → All (λ u. key_leb r.key u.key ≡ true) ss
All-key_leb r s [] le a = tt
All-key_leb r s (u ∷ us) le a = (key_leb_trans r.key s.key u.key le a.0, All-key_leb r s us le a.1)

insert-IsSorted : (r : Release) (rs : List Release) → IsSorted rs → IsSorted (insert_release r rs)
unfolding insert_release
insert-IsSorted r [] h = (tt, tt)
insert-IsSorted r (s ∷ ss) h = elim (Bool-cases (key_leb r.key s.key)) [
  | inl le ↦ rw le ((le, All-key_leb r s ss le h.0), h)
  | inr gt ↦ rw gt (
    All-insert (λ u. key_leb s.key u.key ≡ true) r ss (key_leb_total r.key s.key gt) h.0,
    insert-IsSorted r ss h.1,
  )
]

sort-IsSorted : (rs : List Release) → IsSorted (sort_releases rs)
unfolding sort_releases
sort-IsSorted [] = tt
sort-IsSorted (r ∷ rs) = insert-IsSorted r (sort_releases rs) (sort-IsSorted rs)

insert-perm : (r : Release) (rs : List Release) → Perm (insert_release r rs) (r ∷ rs)
unfolding insert_release
insert-perm r [] = Perm.refl (r ∷ [])
insert-perm r (s ∷ ss) = elim (Bool-cases (key_leb r.key s.key)) [
  | inl le ↦ rw le (Perm.refl (r ∷ s ∷ ss))
  | inr gt ↦ rw gt (Perm.trans (Perm.cons s (insert-perm r ss)) (Perm.swap r s ss))
]

sort-perm : (rs : List Release) → Perm (sort_releases rs) rs
unfolding sort_releases
sort-perm [] = Perm.refl []
sort-perm (r ∷ rs) = Perm.trans (insert-perm r (sort_releases rs)) (Perm.cons r (sort-perm rs))

-- The release that an entry of GitHub's answer gives: its tag, with a version, and the first of its assets
-- whose name the glob matches.
pub record IsRelease (fnmatch : String → String → Bool) (asset_glob : String) (rel : GhRelease)
    (r : Release) : Type 0 where
  pub tag : r.tag ≡ tag_of rel
  pub version : version_key (tag_of rel) ≡ some r.key
  pub before : List Asset
  pub asset : Asset
  pub behind : List Asset
  pub assets : rel.assets ≡ before ++ asset ∷ behind
  pub misses : All (λ (a : Asset). fnmatch a.name asset_glob ≡ false) before
  pub matches : fnmatch asset.name asset_glob ≡ true
  pub name : r.asset_name ≡ asset.name
  pub url : r.asset_url ≡ asset.browser_download_url

-- The releases that the entries give, in their order; an entry gives none exactly where its tag has no
-- version or none of its assets matches.
pub data Parsed (fnmatch : String → String → Bool) (asset_glob : String)
    : List GhRelease → List Release → Type 0 where
  nothing : Parsed fnmatch asset_glob [] []
  skips :
      (rel : GhRelease) (rels : List GhRelease) (rs : List Release)
      → (version_key (tag_of rel) ≡ none)
        ⊎ All (λ (a : Asset). fnmatch a.name asset_glob ≡ false) rel.assets
      → Parsed fnmatch asset_glob rels rs
      → Parsed fnmatch asset_glob (rel ∷ rels) rs
  takes :
      (rel : GhRelease) (r : Release) (rels : List GhRelease) (rs : List Release)
      → IsRelease fnmatch asset_glob rel r
      → Parsed fnmatch asset_glob rels rs
      → Parsed fnmatch asset_glob (rel ∷ rels) (r ∷ rs)

module _ (fnmatch : String → String → Bool) (asset_glob : String) where
  abbrev hit : Asset → Bool
  hit a = fnmatch a.name asset_glob

  -- Where the first match stands.
  found-splits :
      (as' : List Asset) (a : Asset)
      → find_first hit as' ≡ some a
      → (before : List Asset) × (behind : List Asset) × (as' ≡ before ++ a ∷ behind)
        × All (λ a. hit a ≡ false) before
        × (hit a ≡ true)
  found-splits [] a e = cc
  found-splits (x ∷ xs) a e = elim (Bool-cases (hit x)) [
    | inl yes_ ↦
        let same : x ≡ a = cc (rw yes_ at e) in
        ([], xs, ap (λ y. y ∷ xs) same, tt, ap hit (sym same) ∙ yes_)
    | inr miss ↦
        let (before, behind, split, misses, m) = found-splits xs a (rw miss at e) in
        (x ∷ before, behind, ap (◌∷◌ x) split, (miss, misses), m)
  ]

  candidates-Parsed :
      (rels : List GhRelease) → Parsed fnmatch asset_glob rels (candidates fnmatch asset_glob rels)
  unfolding candidates candidate
  candidates-Parsed [] = nothing
  candidates-Parsed (rel ∷ rels) =
      of (version_key (tag_of rel)) (find_first hit rel.assets) refl refl (candidates-Parsed rels)
    where
      of :
          (k : Option Key) (o : Option Asset)
          → version_key (tag_of rel) ≡ k
          → find_first hit rel.assets ≡ o
          → Parsed fnmatch asset_glob rels (candidates fnmatch asset_glob rels)
          → Parsed fnmatch asset_glob (rel ∷ rels) (
              push fnmatch asset_glob
                (elim k as (λ _. Option Release) [
                  | none ↦ none
                  | some key ↦ elim o as (λ _. Option Release) [
                    | none ↦ none
                    | some asset ↦ some (record {
                      tag = tag_of rel;
                      key = key;
                      asset_url = asset.browser_download_url;
                      asset_name = asset.name;
                    })
                  ]
                ])
                (candidates fnmatch asset_glob rels))
      of none o ek eo p = skips rel rels _ (inl ek) p
      of (some key) none ek eo p = skips rel rels _ (inr (find_first-none→All hit rel.assets eo)) p
      of (some key) (some asset) ek eo p =
          let (before, behind, split, misses, m) = found-splits rel.assets asset eo in
          takes rel _ rels _
            (record {
              tag = refl;
              version = ek;
              before = before;
              asset = asset;
              behind = behind;
              assets = split;
              misses = misses;
              matches = m;
              name = refl;
              url = refl;
            })
            p

-- `parse_releases` answers, in ascending order of version, exactly the releases that the entries of
-- GitHub's answer give, each as often as an entry gives it: an entry gives one where its tag has a
-- version and one of its assets matches the glob, with the first such asset, and none otherwise.
pub parse_releases_lem :
    (fnmatch : String → String → Bool) (asset_glob : String) (gh_json : List GhRelease)
    → IsSorted (parse_releases fnmatch asset_glob gh_json)
      × (rs : List Release) × Parsed fnmatch asset_glob gh_json rs
      × Perm (parse_releases fnmatch asset_glob gh_json) rs
unfolding parse_releases
parse_releases_lem fnmatch asset_glob gh_json =
    let found = candidates fnmatch asset_glob gh_json in
    (sort-IsSorted found, found, candidates-Parsed fnmatch asset_glob gh_json, sort-perm found)
