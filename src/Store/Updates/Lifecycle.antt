-- ===== src/Store/Updates/Lifecycle.antt =====
-- How the statements move a transaction through its states, and who holds its lease.
use payment_sim.Store.Tables.{Status, Row, update_where, is_some, is_processing}
use payment_sim.Store.Updates.{Updates, apply_updates, claimed, renewed, finalized, recovered}
use payment_sim.Value.{Items}
use payment_sim.Prelude.{
  ℕ, String, ◌≡◌, refl, sym, inl, inr, Bool, true, false, Option, some, List, [], ◌∷◌, arith,
  Bool-cases, All,
}

-- The columns of the lease are set exactly while the transaction is PROCESSING.
pub record IsLeased (r : Row) : Type 0 where
  pub holder : is_some r.processor_instance_id ≡ is_processing r.status
  pub started : is_some r.processing_started_at ≡ is_processing r.status
  pub heartbeat : is_some r.last_heartbeat_at ≡ is_processing r.status
  pub lease : is_some r.lease_expires_at ≡ is_processing r.status

pub All-update_where {ℓ κ} :
    {A : Type ℓ} (P : A → Type κ) (p : A → Bool) (f : A → A) (rs : List A)
    → ((r : A) → p r ≡ true → P r → P (f r))
    → All P rs
    → All P (update_where p f rs)
unfolding update_where
All-update_where P p f [] keep h = tt
All-update_where P p f (r ∷ rs) keep h =
    let rest = All-update_where P p f rs keep h.1 in
    elim (Bool-cases (p r)) [
      | inl hit ↦ rw hit (keep r hit h.0, rest)
      | inr miss ↦ rw miss (h.0, rest)
    ]

pub claimed-IsLeased :
    (instance_id : String) (timeline : Option Items) (lease_ms now : ℕ) (r : Row)
    → IsLeased (claimed instance_id timeline lease_ms now r)
unfolding claimed
claimed-IsLeased instance_id timeline lease_ms now r = record {
  holder = refl;
  started = refl;
  heartbeat = refl;
  lease = refl;
}

pub renewed-IsLeased :
    (lease_ms now : ℕ) (r : Row)
    → is_processing r.status ≡ true
    → IsLeased r
    → IsLeased (renewed lease_ms now r)
unfolding renewed
renewed-IsLeased lease_ms now r p l = record {
  holder = l.holder;
  started = l.started;
  heartbeat = sym p;
  lease = sym p;
}

pub finalized-IsLeased :
    (u : Updates) (t : Status) (now : ℕ) (r : Row)
    → u.status ≡ some t
    → is_processing t ≡ false
    → IsLeased (finalized u now r)
unfolding finalized
finalized-IsLeased u t now r e p = ground arith

pub recovered-IsLeased : (now : ℕ) (r : Row) → IsLeased (recovered now r)
unfolding recovered
recovered-IsLeased now r = record { holder = refl; started = refl; heartbeat = refl; lease = refl }

pub apply_updates-IsLeased :
    (u : Updates) (t : Status) (now : ℕ) (r : Row)
    → u.status ≡ some t
    → is_processing t ≡ false
    → u.clear_processing ≡ true
    → IsLeased (apply_updates u now r)
unfolding apply_updates
apply_updates-IsLeased u t now r e p c = ground arith
