-- ===== src/Depth/Shares.antt =====
-- pipeline/recon_depth.py: the depths and the shares of the rate.
use moirax_asm.Prelude.{ℕ, zero, suc, ◌*◌, ◌/◌, ◌≤◌, ◌≡◌, max, arith}
use native.Mathlib.Nat.{mul-div-le, le-div_iff_mul-le}
use moirax_asm.Depth.{
  Setting, missing, not_a_number, number, clamp_depth, clamp_recon_depth, clamp_ffuf_depth,
  clamp_dnsx_parallel_parents, dnsx_parent_worker_count, dnsx_job_qps,
}

clamp_depth-bounded :
    (lo hi : ℕ) (primary fallback : Setting)
    → lo ≤ hi
    → (lo ≤ clamp_depth lo hi primary fallback) × (clamp_depth lo hi primary fallback ≤ hi)
unfolding clamp_depth
clamp_depth-bounded lo hi missing fallback h = (omega arith, omega arith)
clamp_depth-bounded lo hi not_a_number fallback h = (omega arith, omega arith)
clamp_depth-bounded lo hi (number n) fallback h = (omega arith, omega arith)

-- Whatever the settings hold, both depths are within the limits, if these are in order.
pub clamp_recon_depth-bounded :
    (lo hi : ℕ) (recon_depth ffuf_depth : Setting)
    → lo ≤ hi
    → (lo ≤ clamp_recon_depth lo hi recon_depth ffuf_depth)
      × (clamp_recon_depth lo hi recon_depth ffuf_depth ≤ hi)
      × (lo ≤ clamp_ffuf_depth lo hi ffuf_depth)
      × (clamp_ffuf_depth lo hi ffuf_depth ≤ hi)
unfolding clamp_recon_depth clamp_ffuf_depth
clamp_recon_depth-bounded lo hi recon_depth ffuf_depth h =
    let (a, b) = clamp_depth-bounded lo hi recon_depth ffuf_depth h in
    let (c, d) = clamp_depth-bounded lo hi ffuf_depth missing h in (a, b, c, d)

share_within : (w q : ℕ) → 1 ≤ w → w ≤ max 1 q → w * max 1 (q / w) ≤ max 1 q
share_within w zero h k = let one : w ≡ 1 = omega arith in rw one (omega arith)
share_within w (suc q) h k =
    let whole : 1 ≤ suc q / w = (le-div_iff_mul-le h).1 (omega arith) in
    let top : max 1 (suc q / w) ≡ suc q / w = omega (arith, whole) in
    rw top (omega (arith, mul-div-le (suc q) w))

-- There is at least one worker, and no more workers than parents, of which at least one counts, or
-- than the setting wants; their jobs together stay within the rate that they share, which counts
-- as at least one.
pub dnsx_parent_worker_count-within :
    (least most wanted : Setting) (parents qps : ℕ)
    → let want = clamp_dnsx_parallel_parents least most wanted in
      let workers = dnsx_parent_worker_count want parents qps in
      (1 ≤ workers)
      × (workers ≤ max 1 parents)
      × (workers ≤ want)
      × (workers * dnsx_job_qps qps workers ≤ max 1 qps)
unfolding dnsx_parent_worker_count dnsx_job_qps clamp_dnsx_parallel_parents
dnsx_parent_worker_count-within least most wanted parents qps =
    let want = clamp_dnsx_parallel_parents least most wanted in
    let workers = dnsx_parent_worker_count want parents qps in
    let some_one : max 1 workers ≡ workers = omega arith in
    (
      omega arith,
      omega arith,
      omega arith,
      rw some_one (share_within workers qps (omega arith) (omega arith)),
    )
