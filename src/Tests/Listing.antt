-- ===== src/Tests/Listing.antt =====
-- Pages of one object, over a bucket of two.
use rosemary_virsree.Prelude.{
  ◌++◌, ◌≡◌, ◌≢◌, ◌⊎◌, refl, some, none, Option, [], ◌∷◌, arith, ◌<◌, true,
}
use rosemary_virsree.Prelude.Text.{Str, codes, str_lt}
use rosemary_virsree.Prelude.Table.{count}
use rosemary_virsree.Prelude.Sorting.{insert, sort}
use rosemary_virsree.Model.{Object, Db}
use rosemary_virsree.Store.Listings.Cursors.{
  UniqueKeys, objects_after, follow, list_objects_page-followed,
}
use rosemary_virsree.Service.Uploads.{length}
use rosemary_virsree.Gateway.Request.{Values, get, values}
use rosemary_virsree.Gateway.Objects.{Cursor, start_of}
use rosemary_virsree.Gateway.Objects.Tokens.{start_of-token}
use rosemary_virsree.Tests.Codec.{split_at, split_at-length}
use rosemary_virsree.Tests.Sample.{bkt, document, sample, tables}

abbrev letter : Object
letter = record document {
  id = codes "obj_3";
  logical_key = codes "a";
  physical_key = codes "final/3";
}

abbrev shelf : Db
shelf = record sample { objects = document ∷ letter ∷ [] }

shelf-UniqueKeys : UniqueKeys bkt shelf
unfolding tables
shelf-UniqueKeys [] = omega arith
shelf-UniqueKeys (c ∷ k) = ground arith

few : count (λ _. true) (objects_after bkt [] [] shelf) < 3
unfolding tables insert sort str_lt
few = omega arith

list_objects_page-followed_example :
    follow 3 1 bkt [] [] shelf ≡ some (objects_after bkt [] [] shelf)
list_objects_page-followed_example =
    list_objects_page-followed 3 1 bkt [] [] shelf shelf-UniqueKeys (omega arith) (omega arith) few

both_listed : objects_after bkt [] [] shelf ≡ letter ∷ document ∷ []
unfolding tables insert sort str_lt
both_listed = refl

-- A token text: the lengths of the bucket and the prefix, then the three texts.
unfoldable encode : Cursor → Str
encode c = length c.bucket ∷ length c.prefix ∷ (c.bucket ++ (c.prefix ++ c.after))

abbrev cursor_of : Str × Str → Str × Str → Cursor
cursor_of b p = record { bucket = b.0; prefix = p.0; after = p.1 }

unfoldable decode : Str → Option Cursor
decode (n ∷ m ∷ s) = some (cursor_of (split_at n s) (split_at m (split_at n s).1))
decode _ = none

decode-encode : (c : Cursor) → decode (encode c) ≡ some c
unfolding encode decode
decode-encode c =
    let first = split_at-length c.bucket (c.prefix ++ c.after) in
    let second = split_at-length c.prefix c.after in rw (first, second) refl

abbrev cursor : Cursor
cursor = record { bucket = bkt; prefix = []; after = codes "a" }

abbrev query : Values
query = (codes "continuation-token", encode cursor ∷ []) ∷ []

start_of-token_example :
    ((bkt ≡ cursor.bucket)
      × (cursor.prefix ≡ cursor.prefix)
      × (start_of encode decode query bkt [] ≡ some (codes "a")))
    ⊎ (((bkt ≢ cursor.bucket) ⊎ (cursor.prefix ≢ cursor.prefix))
        × (start_of encode decode query bkt [] ≡ none))
unfolding tables get values encode
start_of-token_example =
    start_of-token encode decode cursor (decode-encode cursor) query bkt [] refl (ground arith)
      (ground arith) (omega arith)
