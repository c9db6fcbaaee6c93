-- ===== src/Scheduling/Requests.antt =====
-- scheduling.py: `normalize_requested_cores`.
use codex_remote_runner.Prelude.{
  nat_eq, string_eq, ok, ℕ, zero, suc, ◌<◌, ◌≡◌, refl, ◌↔◌, some, arith,
}
use codex_remote_runner.Prelude.Int.{pos}
use codex_remote_runner.Values.{Value, null, integer}
use codex_remote_runner.Scheduling.{normalize_requested_cores}

requested_cores_sound :
    (v : Value) (n : ℕ)
    → normalize_requested_cores v ≡ ok (some n)
    → (v ≡ integer (pos n)) × (0 < n)
unfolding normalize_requested_cores
requested_cores_sound null n h = cc
requested_cores_sound (integer (pos zero)) n h = cc
requested_cores_sound (integer (pos (suc m))) n h = ground arith
requested_cores_sound v n h = cc

requested_cores_complete :
    (n : ℕ) → 0 < n → normalize_requested_cores (integer (pos n)) ≡ ok (some n)
unfolding normalize_requested_cores
requested_cores_complete zero h = absurd (omega arith)
requested_cores_complete (suc n) h = refl

-- A request for `n` cores is read as `n` exactly when it is the integer `n` and `n` is positive.
pub normalize_requested_cores_iff :
    (v : Value) (n : ℕ)
    → (normalize_requested_cores v ≡ ok (some n)) ↔ ((v ≡ integer (pos n)) × (0 < n))
normalize_requested_cores_iff v n =
    (requested_cores_sound v n, λ h. rw (h.0) (requested_cores_complete n h.1))
