-- ===== src/Provider/Purge.antt =====
-- internal/provider/purge.go: S3.PurgePrefix. The client of the S3 API is a parameter, and the loops run
-- on fuel. A key that the API leaves out is the empty string, as aws.ToString makes it.
pub mod Prefix
pub mod Outside
pub mod Complete
pub mod Within
pub mod Ends
pub mod Refines
use rosemary_virsree.Prelude.{
  ℕ, zero, suc, Bool, true, false, not, ◌&&◌, ◌||◌, Option, none, some, List, [], ◌∷◌,
}
use rosemary_virsree.Prelude.Text.{Str, codes, str_eq, has_prefix}
use rosemary_virsree.Prelude.Split.{split}
use rosemary_virsree.Prelude.Results.{
  Result, ok, err, out_of_fuel, remote_failed, bad_purge_prefix, outside_prefix,
  empty_truncated_page, backend_not_ready,
}
use rosemary_virsree.Prelude.Effects.{Effect, pure, fail, require, ◌>>=◌, ◌>>◌}

pub record Version : Type 0 where
  pub key : Str
  pub version_id : Str

pub record VersionPage : Type 0 where
  pub versions : List Version
  pub delete_markers : List Version
  pub truncated : Bool

pub record ObjectPage : Type 0 where
  pub contents : List Str
  pub truncated : Bool

-- ListObjectVersions: a page, an error code that says the API is not there, or any other error.
pub data Answer : Type 0 where
  page : VersionPage → Answer
  unsupported : Answer
  failed : Answer

-- The calls of the S3 client on a bucket whose state is a `W`.
pub record Client (W : Type 0) : Type 0 where
  pub list_object_versions : Str → W → Answer × W
  pub delete_version : Version → W → Bool × W
  pub list_objects : Str → W → Option ObjectPage × W
  pub delete_object : Str → W → Bool × W

abbrev pub slash : ℕ
slash = 47

abbrev pub valid_parts : List Str → Bool
valid_parts (root ∷ id ∷ rest ∷ []) =
    (str_eq root (codes "rosemary") || str_eq root (codes "rosemary-staging"))
    && (not (str_eq id [])
        && (not (str_eq id (codes ".")) && (not (str_eq id (codes "..")) && str_eq rest [])))
valid_parts _ = false

unfoldable pub valid_purge_prefix : Str → Bool
unfolding split
valid_purge_prefix prefix = valid_parts (split slash prefix)

abbrev pub is_nil : {A : Type 0} → List A → Bool
is_nil [] = true
is_nil (x ∷ xs) = false

abbrev pub answered : {W : Type 0} → Bool × W → Result (Unit {0}) × W
answered (true, w) = (ok tt, w)
answered (false, w) = (err remote_failed, w)

module _ {W : Type 0} (client : Client W) (prefix : Str) where
  abbrev pub erase : Version → Effect W (Unit {0})
  erase v w = answered (client.delete_version v w)

  -- The loops over page.Versions and page.DeleteMarkers.
  unfoldable pub erase_versions : List Version → Effect W (Unit {0})
  erase_versions [] = pure tt
  erase_versions (v ∷ vs) = do
    require (not (has_prefix v.key prefix)) outside_prefix
    erase v
    erase_versions vs

  abbrev pub delete : Str → Effect W (Unit {0})
  delete key w = answered (client.delete_object key w)

  -- The loop over page.Contents.
  unfoldable pub delete_objects : List Str → Effect W (Unit {0})
  delete_objects [] = pure tt
  delete_objects (key ∷ keys) = do
    require (not (has_prefix key prefix)) outside_prefix
    delete key
    delete_objects keys

  -- The two ends of a round: the page was the last one, or the loop goes on unless it was empty.
  abbrev pub next_versions : Effect W (Unit {0}) → VersionPage → Effect W (Unit {0})
  next_versions again p w = elim p.truncated [
    | Bool.false ↦ (ok tt, w)
    | Bool.true ↦ elim (is_nil p.versions && is_nil p.delete_markers) [
      | Bool.true ↦ (err empty_truncated_page, w)
      | Bool.false ↦ again w
    ]
  ]

  abbrev pub versions_round : Effect W (Unit {0}) → Answer × W → Result (Unit {0}) × W
  versions_round again (unsupported, w) = (ok tt, w)
  versions_round again (failed, w) = (err remote_failed, w)
  versions_round again (page p, w) =
      (do erase_versions p.versions; erase_versions p.delete_markers; next_versions again p) w

  unfoldable pub purge_versions : ℕ → Effect W (Unit {0})
  unfolding erase_versions
  purge_versions zero w = (err out_of_fuel, w)
  purge_versions (suc n) w =
      versions_round (purge_versions n) (client.list_object_versions prefix w)

  abbrev pub next_objects : Effect W (Unit {0}) → ObjectPage → Effect W (Unit {0})
  next_objects again p w = elim (is_nil p.contents) [
    | Bool.false ↦ again w
    | Bool.true ↦ elim p.truncated [
      | Bool.false ↦ (ok tt, w)
      | Bool.true ↦ (err empty_truncated_page, w)
    ]
  ]

  abbrev pub objects_round : Effect W (Unit {0}) → Option ObjectPage × W → Result (Unit {0}) × W
  objects_round again (none, w) = (err remote_failed, w)
  objects_round again (some p, w) = (do delete_objects p.contents; next_objects again p) w

  unfoldable pub purge_objects : ℕ → Effect W (Unit {0})
  unfolding delete_objects
  purge_objects zero w = (err out_of_fuel, w)
  purge_objects (suc n) w = objects_round (purge_objects n) (client.list_objects prefix w)

  -- S3.PurgePrefix, with fuel for its two loops.
  unfoldable pub purge_prefix : Bool → ℕ → ℕ → Effect W (Unit {0})
  unfolding purge_versions purge_objects
  purge_prefix ready n m = do
    require (not ready || not (valid_purge_prefix prefix)) bad_purge_prefix
    purge_versions n
    purge_objects m
