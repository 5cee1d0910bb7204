-- ===== src/Application/CommunityRanking/Shares.antt =====
-- community_ranking.py: the percentile of a value among those of its platform.
use mathlib.Core.Path.{subst}
use fpl_data_relay.Prelude.{
  ℕ, suc, ◌*◌, ◌≤◌, ◌<◌, ◌≡◌, ap, ◌∙◌, arith, String, Bool, true, false, Option, none, some, List,
  [], ◌∷◌, length, count, leb, inl, inr, string_key, ◌=?◌, Bool-cases,
}
use fpl_data_relay.Prelude.Dict.{get}
use fpl_data_relay.Domain.Community.Kinds.{SourceType, same_type, same_type_iff}
use fpl_data_relay.Domain.Community.Double.{Double, IsRounded, Within, ◌≼◌, exact_limit}
use fpl_data_relay.Domain.Community.Documents.{SourceDocumentMetadata, engagement_score}
use fpl_data_relay.Application.CommunityRanking.{Documents, with_value, platform_values, percentile}

count-le-length : (test : ℕ → Bool) (xs : List ℕ) → count test xs ≤ length xs
count-le-length test [] = omega arith
count-le-length test (x ∷ xs) = ground (arith, count-le-length test xs)

count_mono : (a b : ℕ) (xs : List ℕ) → a ≤ b → count (λ x. leb x a) xs ≤ count (λ x. leb x b) xs
count_mono a b [] h = omega arith
count_mono a b (x ∷ xs) h = ground (arith, count_mono a b xs h)

length-with_value :
    (b : Bool) (o : Option ℕ) (values : List ℕ)
    → (length values ≤ length (with_value b o values))
      × (length (with_value b o values) ≤ suc (length values))
length-with_value b none values = omega arith
length-with_value true (some n) values = omega arith
length-with_value false (some n) values = omega arith

pub length-platform_values :
    (p : SourceType) (ds : Documents) → length (platform_values p ds) ≤ length ds
unfolding platform_values
length-platform_values p [] = omega arith
length-platform_values p ((k, m) ∷ ds) = omega (
  arith,
  length-platform_values p ds,
  length-with_value (same_type m.source_type p) (engagement_score m) (platform_values p ds),
)

-- A measured document is counted on its own platform.
pub counted :
    (k : String) (m : SourceDocumentMetadata) (n : ℕ) (ds : Documents)
    → get k ds ≡ some m
    → engagement_score m ≡ some n
    → 0 < length (platform_values m.source_type ds)
unfolding platform_values get
counted k m n [] g e = cc
counted k m n ((j, l) ∷ ds) g e = elim (Bool-cases (j =? k)) [
  | inl same ↦
      let found : l ≡ m = ground arith in
      let own : same_type l.source_type m.source_type ≡ true =
        (same_type_iff l.source_type m.source_type).1
          (ap (λ (x : SourceDocumentMetadata). x.source_type) found) in
      rw (platform_values, own, ap engagement_score found ∙ e) (omega arith)
  | inr other ↦
      let before : 0 < length (platform_values m.source_type ds) =
        counted k m n ds (ground arith) e in
      omega (
        arith,
        before,
        length-with_value (same_type l.source_type m.source_type) (engagement_score l)
            (platform_values m.source_type ds),
      )
]

module _ {W : Type 0} ⦃d : Double W⦄ (laws : IsRounded W) where
  open laws use {of_int_le, over_le, over_exact}

  at_most_one :
      (values : List ℕ)
      → 0 < length values
      → length values ≤ exact_limit
      → d.over (d.of_int (length values)) (length values) ≡ d.of_int 1
  at_most_one values h small =
      let e : 1 * length values ≡ length values = omega arith in
      subst (λ n. d.over (d.of_int n) (length values) ≡ d.of_int 1) e
        (over_exact 1 (length values) h (omega arith))

  at_least_zero :
      (values : List ℕ) → 0 < length values → d.over (d.of_int 0) (length values) ≡ d.of_int 0
  at_least_zero values h =
      let e : 0 * length values ≡ 0 = omega arith in
      subst (λ n. d.over (d.of_int n) (length values) ≡ d.of_int 0) e
        (over_exact 0 (length values) h (omega arith))

  pub percentile-Within :
      (values : List ℕ) (score : ℕ)
      → 0 < length values
      → length values ≤ exact_limit
      → Within {W = W} (percentile values score) 1
  unfolding percentile
  percentile-Within values score h small =
      let test : ℕ → Bool = λ value. leb value score in
      let top =
        over_le (length values) (d.of_int (count test values)) (d.of_int (length values)) h
          (of_int_le (count test values) (length values) (count-le-length test values) small) in
      let bottom = over_le (length values) (d.of_int 0) (d.of_int (count test values)) h (
        of_int_le 0 (count test values) (omega arith)
          (omega (arith, count-le-length test values))) in
      (rw (at_least_zero values h) at bottom, rw (at_most_one values h small) at top)

  pub percentile_mono :
      (values : List ℕ) (a b : ℕ)
      → 0 < length values
      → length values ≤ exact_limit
      → a ≤ b
      → ◌≼◌ {W = W} (percentile values a) (percentile values b)
  unfolding percentile
  percentile_mono values a b h small le = over_le (length values) _ _ h (
      of_int_le _ _ (count_mono a b values le)
        (omega (arith, count-le-length (λ x. leb x b) values)))
