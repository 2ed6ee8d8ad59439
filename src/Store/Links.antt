-- ===== src/Store/Links.antt =====
-- internal/store/store.go: the public links.
use rosemary_virsree.Prelude.{ℕ, Bool, true, false, not, ◌&&◌, ◌||◌, Option, none, some, ◌∷◌, ltb}
use rosemary_virsree.Prelude.Int.{ℤ}
use rosemary_virsree.Prelude.Text.{Str, codes, str_eq}
use rosemary_virsree.Prelude.Table.{find, any, update}
use rosemary_virsree.Prelude.Results.{
  Result, ok, ◌>>=◌, ◌>>◌, fail_if, scan, not_found, constraint, link_expired,
}
use rosemary_virsree.Model.{Object, PublicLink, Db}
use rosemary_virsree.Store.Columns.{bucket_is, object_is, object_in, deletion_of}

unfoldable pub create_public_link : ℕ → Str → Str → Str → ℤ → Option ℕ → Db → Result Db
create_public_link now id object slug ttl expires db = do
  fail_if
      (any (λ l. str_eq l.id id) db.public_links
        || any (λ l. str_eq l.slug slug) db.public_links
        || not (any (object_is object) db.objects))
      constraint
  ok (record db {
    public_links =
        record {
          id = id;
          object_id = object;
          slug = slug;
          sign_ttl_seconds = ttl;
          expires_at = expires;
          revoked = false;
          created_at = now;
        }
        ∷ db.public_links;
  })

-- The rows of RevokePublicLink's UPDATE.
abbrev pub link_in : Str → Str → Db → PublicLink → Bool
link_in bucket slug db l =
    str_eq l.slug slug && any (λ o. object_in bucket o && str_eq o.id l.object_id) db.objects

unfoldable pub revoke_public_link : Str → Str → Db → Result Db
revoke_public_link bucket slug db = do
  fail_if (not (any (link_in bucket slug db) db.public_links)) not_found
  ok (record db {
    public_links =
        update (link_in bucket slug db) (λ l. record l { revoked = true }) db.public_links;
  })

abbrev pub public : Str
public = codes "public"

abbrev pub has_expired : ℕ → Option ℕ → Bool
has_expired now none = false
has_expired now (some t) = ltb t now

-- The object behind a public link and the lifetime of its signatures: the link is not revoked, the
-- bucket is public and is not being deleted, and the link has not expired.
unfoldable pub public_object : ℕ → Str → Db → Result (Object × ℤ)
public_object now slug db = do
  l ← scan (find (λ l. str_eq l.slug slug && not l.revoked) db.public_links) not_found
  o ← scan (find (object_is l.object_id) db.objects) not_found
  b ← scan (find (bucket_is o.bucket_id) db.buckets) not_found
  fail_if (not (str_eq b.visibility public)) not_found
  fail_if (any (deletion_of b.id) db.bucket_deletions) not_found
  fail_if (has_expired now l.expires_at) link_expired
  ok (o, l.sign_ttl_seconds)
