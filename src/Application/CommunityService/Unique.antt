-- ===== src/Application/CommunityService/Unique.antt =====
-- application/community_service.py, `_deduplicate_discovered`: each document once, in the order of
-- publication.
use fpl_data_relay.Prelude.{
  ◌≡◌, refl, arith, String, Bool, true, false, ◌||◌, none, List, [], ◌∷◌, any, All, Pairwise, ◌⊎◌,
  Option-cases, Pairwise-append_one, any-append, All-append, contains, string_key, nat_key, ◌=?◌,
  Bool-cases, inl, inr,
}
use fpl_data_relay.Prelude.Dict.{get, put, put-fresh}
use fpl_data_relay.Result.{ok}
use fpl_data_relay.Domain.Community.Kinds.{SourceType, same_type_iff}
use fpl_data_relay.Domain.Community.Documents.{DiscoveredDocument, about}
use fpl_data_relay.Application.CommunityService.Documents.{
  Discovered, Seen, native_key, same_native, is_repeated, see_document,
}

-- Neither the id, nor the source's own id, nor the address is the same.
abbrev pub AreApart : String × DiscoveredDocument → String × DiscoveredDocument → Type 0
AreApart (k, d) (j, e) =
    ((k =? j) ≡ false)
    × (same_native (native_key d) (native_key e) ≡ false)
    × (((about d).url =? (about e).url) ≡ false)

-- A document of the same source's own id, or of the same address, is there.
abbrev pub IsRepresented : Discovered → DiscoveredDocument → Type 0
IsRepresented discovered d =
    any
      (λ item.
        same_native (native_key d) (native_key item.1) || (about item.1).url =? (about d).url)
      discovered
    ≡ true

pub record IsConsistent (seen : Seen) : Type 0 where
  pub natives :
      (q : SourceType × String)
      → any (same_native q) seen.native_ids
        ≡ any (λ item. same_native q (native_key item.1)) seen.documents
  pub addresses :
      (u : String) → contains u seen.urls ≡ any (λ item. (about item.1).url =? u) seen.documents
  pub apart : Pairwise AreApart seen.documents
  pub named : All (λ item. (about item.1).document_id ≡ item.0) seen.documents

string_sym : (a b : String) → (a =? b) ≡ (b =? a)
string_sym a b = ground (arith, string_key.beq_iff a b, string_key.beq_iff b a)

native_sym : (p q : SourceType × String) → same_native p q ≡ same_native q p
native_sym (t, a) (u, b) = ground (arith, string_sym a b, same_type_iff t u, same_type_iff u t)

pub AreApart-swap : (a b : String × DiscoveredDocument) → AreApart a b → AreApart b a
AreApart-swap (k, d) (j, e) (p, q, r) = (
  rw (string_sym j k) p,
  rw (native_sym (native_key e) (native_key d)) q,
  rw (string_sym (about e).url (about d).url) r,
)

-- A document that is not repeated, under a fresh id, is apart from all.
fresh-AreApart :
    (k : String) (d : DiscoveredDocument) (items : Discovered)
    → get k items ≡ none
    → any (λ item. same_native (native_key d) (native_key item.1)) items ≡ false
    → any (λ item. (about item.1).url =? (about d).url) items ≡ false
    → All (λ item. AreApart item (k, d)) items
unfolding get
fresh-AreApart k d [] absent p q = tt
fresh-AreApart k d ((j, e) ∷ items) absent p q =
    let rest = fresh-AreApart k d items (ground arith) (ground arith) (ground arith) in
    (
      (ground arith, rw (native_sym (native_key e) (native_key d)) (ground arith), ground arith),
      rest,
    )

-- What a document that is not repeated becomes.
unfoldable pub add : Seen → DiscoveredDocument → Seen
add seen d = record {
  documents = put (about d).document_id d seen.documents;
  native_ids = native_key d ∷ seen.native_ids;
  urls = (about d).url ∷ seen.urls;
}

-- The three cases of a document.
pub see_document-inv :
    (seen after : Seen) (d : DiscoveredDocument)
    → see_document seen d ≡ ok after
    → ((is_repeated seen d ≡ true) × (after ≡ seen))
      ⊎ ((is_repeated seen d ≡ false)
          × (get (about d).document_id seen.documents ≡ none)
          × (after ≡ add seen d))
unfolding see_document add
see_document-inv seen after d h = elim (Bool-cases (is_repeated seen d)) [
  | inl e ↦ inl (e, ground arith)
  | inr e ↦ elim (Option-cases (get (about d).document_id seen.documents)) [
    | inl absent ↦ inr (e, absent, ground arith)
    | inr (x, present) ↦ absurd (ground arith)
  ]
]

pub any_or :
    {A : Type 0} (f g : A → Bool) (xs : List A) → any (λ x. f x || g x) xs ≡ (any f xs || any g xs)
any_or f g [] = refl
any_or f g (x ∷ xs) = ground (arith, any_or f g xs)

module _ (seen : Seen) (c : IsConsistent seen) (d : DiscoveredDocument) where
  abbrev new_item : String × DiscoveredDocument
  new_item = ((about d).document_id, d)

  abbrev stored : Discovered
  stored = seen.documents

  pub add-IsConsistent :
      is_repeated seen d ≡ false
      → get (about d).document_id seen.documents ≡ none
      → IsConsistent (add seen d)
  unfolding add
  add-IsConsistent repeated absent =
      rw (put-fresh (about d).document_id d seen.documents absent) (record {
        natives = λ q. ground (
          arith,
          c.natives q,
          any-append (λ (i : String × DiscoveredDocument). same_native q (native_key i.1)) stored
              (new_item ∷ []),
        );
        addresses = λ u. ground (
          arith,
          c.addresses u,
          any-append (λ (i : String × DiscoveredDocument). (about i.1).url =? u) stored
              (new_item ∷ []),
        );
        apart = Pairwise-append_one AreApart stored new_item c.apart (
            fresh-AreApart (about d).document_id d stored absent
              (ground (arith, c.natives (native_key d)))
              (ground (arith, c.addresses (about d).url)));
        named =
            All-append (λ i. (about i.1).document_id ≡ i.0) stored (new_item ∷ []) c.named
              (refl, tt);
      })
