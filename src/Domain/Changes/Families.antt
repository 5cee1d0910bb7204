-- ===== src/Domain/Changes/Families.antt =====
-- `EntityFamily` as the key of a dict.
use fpl_data_relay.Prelude.{
  ℕ, zero, suc, ◌≡◌, refl, sym, ap, ◌∙◌, ◌↔◌, true, Key, nat_key, ◌==◌, ltb, ==_iff,
}
use fpl_data_relay.Domain.Changes.Records.{EntityFamily}

abbrev pub rank : EntityFamily → ℕ
rank EntityFamily.events = 0
rank EntityFamily.phases = 1
rank EntityFamily.teams = 2
rank EntityFamily.element_types = 3
rank EntityFamily.element_stats = 4
rank EntityFamily.elements = 5
rank EntityFamily.fixtures = 6
rank EntityFamily.event_status = 7
rank EntityFamily.event_live = 8

abbrev of_rank : ℕ → EntityFamily
of_rank zero = EntityFamily.events
of_rank (suc zero) = EntityFamily.phases
of_rank (suc (suc zero)) = EntityFamily.teams
of_rank (suc (suc (suc zero))) = EntityFamily.element_types
of_rank (suc (suc (suc (suc zero)))) = EntityFamily.element_stats
of_rank (suc (suc (suc (suc (suc zero))))) = EntityFamily.elements
of_rank (suc (suc (suc (suc (suc (suc zero)))))) = EntityFamily.fixtures
of_rank (suc (suc (suc (suc (suc (suc (suc zero))))))) = EntityFamily.event_status
of_rank (suc (suc (suc (suc (suc (suc (suc (suc n)))))))) = EntityFamily.event_live

of_rank-rank : (f : EntityFamily) → of_rank (rank f) ≡ f
of_rank-rank EntityFamily.events = refl
of_rank-rank _ = refl

pub family_beq_iff : (a b : EntityFamily) → ((rank a == rank b) ≡ true) ↔ (a ≡ b)
family_beq_iff a b = (
  λ h. sym (of_rank-rank a) ∙ ap of_rank ((==_iff (rank a) (rank b)).0 h) ∙ of_rank-rank b,
  λ e. (==_iff (rank a) (rank b)).1 (ap rank e),
)

instance abbrev pub family_key : Key EntityFamily
family_key = record {
  beq = λ a b. rank a == rank b;
  beq_iff = family_beq_iff;
  before = λ a b. ltb (rank a) (rank b);
  before_irrefl = λ a. nat_key.before_irrefl (rank a);
  before_trans = λ a b c. nat_key.before_trans (rank a) (rank b) (rank c);
  before_total = λ a b. nat_key.before_total (rank a) (rank b);
}
