-- ===== src/Provider/Purge/Refines.antt =====
-- S3.PurgePrefix against the purge of an abstract store, which maps keys to contents.
use rosemary_virsree.Prelude.{
  ℕ, ◌≡◌, ◌≢◌, ap, sym, ◌∙◌, true, false, Option, none, some, [], inl, inr, Bool, Bool-cases,
  if◌then◌else◌,
}
use rosemary_virsree.Prelude.Text.{Str, has_prefix}
use rosemary_virsree.Prelude.Results.{ok}
use rosemary_virsree.Provider.Purge.{Version, Client, ObjectPage, purge_prefix}
use rosemary_virsree.Provider.Purge.Outside.{purge_prefix-outside}
use rosemary_virsree.Provider.Purge.Complete.{purge_prefix-clears}

-- The store without the keys under the prefix.
abbrev pub purged : {C : Type 0} → Str → (Str → Option C) → Str → Option C
purged prefix store key = if has_prefix key prefix then none else store key

-- Where listing changes nothing, a deletion changes the content of its own key only, and an empty last
-- page of ListObjectsV2 says that no key under the prefix is left, a successful S3.PurgePrefix
-- removes the keys under the prefix from the store and nothing else.
pub purge_prefix-purged :
    {W C : Type 0} (client : Client W) (prefix : Str) (content : W → Str → Option C)
    → ((w s : W) (p : ObjectPage) (key : Str)
        → client.list_objects prefix w ≡ (some p, s)
        → p.contents ≡ []
        → p.truncated ≡ false
        → has_prefix key prefix ≡ true
        → content s key ≡ none)
    → ((key : Str) (w : W) → content (client.list_object_versions prefix w).1 key ≡ content w key)
    → ((v : Version) (key : Str) (w : W)
        → v.key ≢ key
        → content (client.delete_version v w).1 key ≡ content w key)
    → ((key : Str) (w : W) → content (client.list_objects prefix w).1 key ≡ content w key)
    → ((k key : Str) (w : W) → k ≢ key → content (client.delete_object k w).1 key ≡ content w key)
    → (ready : Bool) (n m : ℕ) (w w' : W) (key : Str)
    → purge_prefix client prefix ready n m w ≡ (ok tt, w')
    → content w' key ≡ purged prefix (content w) key
purge_prefix-purged client prefix content all lists_v erases lists_o deletes ready n m w w' key h =
    elim (Bool-cases (has_prefix key prefix)) [
      | inl inside ↦
          rw inside (purge_prefix-clears client prefix content all ready n m w w' key h inside)
      | inr outside ↦ rw outside (
          ap (λ r. content r.1 key) (sym h)
          ∙ purge_prefix-outside client prefix content lists_v erases lists_o deletes ready n m w
              key outside)
    ]
