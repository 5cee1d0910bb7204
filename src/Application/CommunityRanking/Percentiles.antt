-- ===== src/Application/CommunityRanking/Percentiles.antt =====
-- engagement_percentiles of application/community_ranking.py: what the percentiles are.
use mathlib.Core.Path.{subst}
use fpl_data_relay.Prelude.{
  ℕ, ◌≤◌, ◌≡◌, refl, ◌∙◌, sym, arith, String, Option, none, some, List, [], ◌∷◌, length, inl, inr,
  if◌then◌else◌, string_key, ◌=?◌, Bool-cases, Option-cases,
}
use fpl_data_relay.Prelude.Dict.{Dict, get, put, get-put, HasUniqueKeys}
use fpl_data_relay.Domain.Community.Double.{Double, IsRounded, Within, ◌≼◌, exact_limit}
use fpl_data_relay.Domain.Community.Documents.{SourceDocumentMetadata, engagement_score}
use fpl_data_relay.Application.CommunityRanking.{
  Documents, platform_values, percentile, percentiles_of, engagement_percentiles,
}
use fpl_data_relay.Application.CommunityRanking.Shares.{
  length-platform_values, counted, percentile-Within, percentile_mono,
}

module _ {W : Type 0} ⦃d : Double W⦄ where
  abbrev pub share_at : List ℕ → Option ℕ → Option W
  share_at values none = none
  share_at values (some n) = some (percentile values n)

  abbrev pub share : Documents → SourceDocumentMetadata → Option W
  share documents m = share_at (platform_values m.source_type documents) (engagement_score m)

  abbrev pub or_else : Option W → Option W → Option W
  or_else none y = y
  or_else (some x) y = some x

  abbrev share_of : Documents → Option SourceDocumentMetadata → Option W
  share_of documents none = none
  share_of documents (some m) = share documents m

  -- What a document without a score adds, and what one with a score adds.
  skip :
      (k j : String) (documents ms : Documents) (m : SourceDocumentMetadata) (out : Dict String W)
      → get j ms ≡ none
      → engagement_score m ≡ none
      → or_else (share_of documents (get k ms)) (get k out)
        ≡ or_else (share_of documents (if j =? k then some m else get k ms)) (get k out)
  skip k j documents ms m out fresh e = elim (Bool-cases (j =? k)) [
    | inl same ↦
        let absent : get k ms ≡ none = rw ((string_key.beq_iff j k).0 same) at fresh in
        rw (same, absent, e) refl
    | inr other ↦ rw other refl
  ]

  enter :
      (k j : String) (documents ms : Documents) (m : SourceDocumentMetadata) (n : ℕ)
      (out : Dict String W)
      → get j ms ≡ none
      → engagement_score m ≡ some n
      → let p = percentile {W = W} (platform_values m.source_type documents) n in
        or_else (share_of documents (get k ms)) (get k (put j p out))
        ≡ or_else (share_of documents (if j =? k then some m else get k ms)) (get k out)
  enter k j documents ms m n out fresh e = elim (Bool-cases (j =? k)) [
    | inl same ↦
        let absent : get k ms ≡ none = rw ((string_key.beq_iff j k).0 same) at fresh in
        rw
          (
            get-put k j (percentile {W = W} (platform_values m.source_type documents) n) out,
            same,
            absent,
            e,
          )
          refl
    | inr other ↦
        rw (get-put k j (percentile {W = W} (platform_values m.source_type documents) n) out, other)
          refl
  ]

  get-percentiles_of :
      (k : String) (documents ms : Documents) (out : Dict String W)
      → HasUniqueKeys ms
      → get k (percentiles_of documents ms out)
        ≡ or_else (share_of documents (get k ms)) (get k out)
  unfolding percentiles_of get
  get-percentiles_of k documents [] out u = refl
  get-percentiles_of k documents ((j, m) ∷ ms) out u = elim (Option-cases (engagement_score m)) [
    | inl e ↦ rw e (get-percentiles_of k documents ms out u.1 ∙ skip k j documents ms m out u.0 e)
    | inr (n, e) ↦
        let p : W = percentile (platform_values m.source_type documents) n in
        rw e (
          get-percentiles_of k documents ms (put j p out) u.1
          ∙ enter k j documents ms m n out u.0 e)
  ]

module _ {W : Type 0} ⦃d : Double W⦄ (documents : Documents)
    (unique : HasUniqueKeys documents) where
  -- Each document that has a score has the share of its platform, and no other key is there.
  pub get-engagement_percentiles :
      (k : String)
      → get k (engagement_percentiles {W = W} documents)
        ≡ or_else (share_of documents (get k documents)) none
  unfolding engagement_percentiles get
  get-engagement_percentiles k = get-percentiles_of k documents documents [] unique

  scored_percentile :
      (k : String) (m : SourceDocumentMetadata) (n : ℕ)
      → get k documents ≡ some m
      → engagement_score m ≡ some n
      → get k (engagement_percentiles {W = W} documents)
        ≡ some (percentile (platform_values m.source_type documents) n)
  scored_percentile k m n found scored = get-engagement_percentiles k ∙ rw (found, scored) refl

  module _ (laws : IsRounded W) (small : length documents ≤ exact_limit) where
    pub engagement_percentiles-Within :
        (k : String) {x : W} → get k (engagement_percentiles documents) ≡ some x → Within x 1
    engagement_percentiles-Within k {x} h = elim (Option-cases (get k documents)) [
      | inl absent ↦
          let e : none ≡ some x = sym (get-engagement_percentiles k ∙ rw absent refl) ∙ h in cc
      | inr (m, found) ↦ elim (Option-cases (engagement_score m)) [
        | inl unscored ↦
            let e : none ≡ some x =
              sym (get-engagement_percentiles k ∙ rw (found, unscored) refl) ∙ h in
            cc
        | inr (n, scored) ↦
            let values : List ℕ = platform_values m.source_type documents in
            let e : some (percentile values n) ≡ some x =
              sym (scored_percentile k m n found scored) ∙ h in
            let same : percentile values n ≡ x = cc in
            subst (λ y. Within y 1) same
              (percentile-Within laws values n (counted k m n documents found scored)
                (omega (arith, length-platform_values m.source_type documents, small)))
      ]
    ]

    -- Of two measured documents of one platform, in a collection of at most 2 ^ 25 documents with
    -- an id each, the one with the higher score has a percentile that is no lower, and both
    -- percentiles lie between 0 and 1.
    pub engagement_percentiles_ordered :
        (j k : String) (m n : SourceDocumentMetadata) (a b : ℕ)
        → get j documents ≡ some m
        → get k documents ≡ some n
        → m.source_type ≡ n.source_type
        → engagement_score m ≡ some a
        → engagement_score n ≡ some b
        → a ≤ b
        → (x : W) × (y : W) × (get j (engagement_percentiles documents) ≡ some x)
          × (get k (engagement_percentiles documents) ≡ some y)
          × Within x 1
          × Within y 1
          × (x ≼ y)
    engagement_percentiles_ordered j k m n a b p q platform v w le =
        let values : List ℕ = platform_values m.source_type documents in
        let few : length values ≤ exact_limit =
          omega (arith, length-platform_values m.source_type documents, small) in
        let first : get j (engagement_percentiles documents) ≡ some (percentile values a) =
          scored_percentile j m a p v in
        let second : get k (engagement_percentiles documents) ≡ some (percentile values b) =
          rw platform (scored_percentile k n b q w) in
        (
          percentile values a,
          percentile values b,
          first,
          second,
          engagement_percentiles-Within j first,
          engagement_percentiles-Within k second,
          percentile_mono laws values a b (counted j m a documents p v) few le,
        )
