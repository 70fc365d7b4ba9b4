-- ===== src/Depth/Samples.antt =====
-- Small searches, and the theorems on them.
use moirax_asm.Prelude.{◌*◌, ◌≤◌, max, [], ◌∷◌, codes, false}
use moirax_asm.Prelude.Dict.{Dict}
use moirax_asm.Depth.{
  missing, number, HostRow, clamp_dnsx_parallel_parents, dnsx_parent_worker_count, dnsx_job_qps,
}
use moirax_asm.Depth.Shares.{dnsx_parent_worker_count-within}

dnsx_parent_worker_count-within_example :
    let want = clamp_dnsx_parallel_parents missing missing (number 4) in
    let workers = dnsx_parent_worker_count want 6 5000 in
    (1 ≤ workers)
    × (workers ≤ max 1 6)
    × (workers ≤ want)
    × (workers * dnsx_job_qps 5000 workers ≤ max 1 5000)
dnsx_parent_worker_count-within_example =
    dnsx_parent_worker_count-within missing missing (number 4) 6 5000

abbrev resolved : Dict HostRow
resolved =
    (codes "api.a.com", record { ips = codes "10.0.0.1" ∷ []; unresolved = false })
    ∷ (codes "dev.api.a.com", record { ips = codes "10.0.0.2" ∷ []; unresolved = false })
    ∷ []
