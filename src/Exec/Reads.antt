-- ===== src/Exec/Reads.antt =====
-- Actions that leave the committed database alone.
use zhyvo.Base.{◌≡◌, inl, inr, ◌∙◌}
use zhyvo.Exec.{World, Result-cases, M, ◌>>=◌}

abbrev pub Reads : {A : Type 0} → M A → Type 0
Reads m = (w : World) → (m w).1.db ≡ w.db

pub bind-Reads :
    {A B : Type 0} (m : M A) (k : A → M B) → Reads m → ((a : A) → Reads (k a)) → Reads (m >>= k)
bind-Reads m k reads all w = elim (Result-cases (m w).0) [
  | inl (e, failed) ↦ rw failed (reads w)
  | inr (a, done) ↦ rw done (all a (m w).1 ∙ reads w)
]
