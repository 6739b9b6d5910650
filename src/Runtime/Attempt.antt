-- ===== src/Runtime/Attempt.antt =====
-- A spawn from the creation of its process on: the steps that can fail, and what they leave.
use embla.Prelude.{
  ℕ, ◌<◌, ◌≡◌, ◌≢◌, refl, ap, ◌⊎◌, inl, inr, true, not, ◌&&◌, none, some, [], ◌∷◌, ◌++◌, ==_ne,
  Bool-cases, update, update_self, update-update, ℤ, pos, success, failure,
}
use embla.Process.{
  Ptr, null, CString, Heap, Process, get_id, get_host_id, set_host_id, transition, ready, modify,
}
use embla.Executor
use embla.Executor.{SpawnHost, Fork, forked, fork_failed}
use embla.ProcessManager.Invariant.{IsTable}
use embla.ProcessGroup
use embla.ProcessGroup.{ProcessGroup, Groups, fresh_group}
use embla.Scheduler
use embla.Scheduler.{Scheduler}
use embla.Scheduler.Queue.{IsRing, queue, add-queue, add-IsRing}
use embla.Runtime.{Embla, spawn_enqueue, spawn_lead, spawn_member}
use embla.Runtime.Rollback.{
  alone, add-alone, pid, gid, made, stage, Cleared, spawn_rollback-Cleared,
}

-- The host or the scheduler refuses the new process.
abbrev pub IsStuck : Embla → SpawnHost → Type 0
IsStuck e answers =
    (answers.fork ≡ fork_failed)
    ⊎ ((not answers.setpgid && not answers.eacces) ≡ true)
    ⊎ (e.scheduler.count ≡ 16)

module _ (e : Embla) (g p : Ptr) (name : CString) (garbage : ℕ)
    (vt : IsTable e.process_manager e.heap) (room : e.process_manager.count < 16)
    (ids : e.process_manager.next_pid < 4294967295) (live : p ≢ null) (fresh : e.heap p ≡ none)
    (ring : IsRing e.scheduler) where
  abbrev at : Process → ProcessGroup → Embla
  at = stage e g p name garbage vt room ids live fresh

  abbrev new_pid : ℕ
  new_pid = pid e g p name garbage vt room ids live fresh

  abbrev new_gid : ℕ
  new_gid = gid e g p name garbage vt room ids live fresh

  abbrev process_made : Process
  process_made = made e g p name garbage vt room ids live fresh

  -- The process as it is handed out: forked under a host id, and READY.
  abbrev pub launched : ℤ → Process
  launched host = record process_made { host_id = host; state = ready }

  -- NULL after a rollback, or the process, behind all that wait, with the leading group.
  abbrev pub Tries : SpawnHost → Ptr × Embla → Type 0
  Tries answers (q, e') =
      ((q ≡ null) × Cleared e g garbage e' × IsStuck e answers)
      ⊎ ((q ≡ p)
          × ((host : ℤ) × (s : Scheduler) × (answers.fork ≡ forked host)
              × (e' ≡ record (at (launched host) (alone new_gid garbage host p)) { scheduler = s })
              × (queue s ≡ queue e.scheduler ++ p ∷ [])
              × IsRing s))

  spawn_enqueue-Tries :
      (answers : SpawnHost) (host : ℤ)
      → answers.fork ≡ forked host
      → Tries answers (
          spawn_enqueue
            (at (record process_made { host_id = host }) (alone new_gid garbage host p))
            g
            p
            new_pid)
  unfolding spawn_enqueue transition
  spawn_enqueue-Tries answers host forks =
      rw
        (
          update_self e.heap p (some (record process_made { host_id = host })),
          transition,
          update-update e.heap p (some (record process_made { host_id = host }))
              (some (launched host)),
        )
        (elim (add-queue e.scheduler p ring) [
          | inl (refused, inl missing) ↦ absurd (live missing)
          | inl (refused, inr full) ↦ rw refused (
              inl (
                refl,
                spawn_rollback-Cleared e g p name garbage vt room ids live fresh (launched host)
                    host refl,
                inr (inr full),
              ))
          | inr (code, waiting, _, _, _, _) ↦ rw code (
              inr (
                refl,
                (
                  host,
                  (Scheduler.add e.scheduler p).1,
                  forks,
                  refl,
                  waiting,
                  add-IsRing e.scheduler p ring,
                ),
              ))
        ])

  -- The fork of the group's first process: it leads the host's group.
  spawn_lead-Tries :
      (answers : SpawnHost) (host : ℤ)
      → answers.fork ≡ forked host
      → Tries answers (
          spawn_lead
            (at (record process_made { host_id = host }) (alone new_gid garbage (pos 0) p))
            g
            p
            new_pid
            (pos 0))
  unfolding spawn_lead ProcessGroup.set_host_id get_host_id
  spawn_lead-Tries answers host forks =
      rw
        (
          update_self e.groups g (some (alone new_gid garbage (pos 0) p)),
          ProcessGroup.set_host_id,
          update_self e.heap p (some (record process_made { host_id = host })),
          get_host_id,
          update-update e.groups g (some (alone new_gid garbage (pos 0) p))
              (some (alone new_gid garbage host p)),
        )
        (spawn_enqueue-Tries answers host forks)

  -- What the executor's spawn leaves: a failure, or the host id in the process.
  executor-cases :
      (host : SpawnHost)
      → ((Executor.spawn (update e.heap p (some process_made)) p true host
            ≡ (failure, update e.heap p (some process_made)))
          × IsStuck e host)
        ⊎ ((n : ℤ) × (host.fork ≡ forked n)
            × (Executor.spawn (update e.heap p (some process_made)) p true host
                ≡ (success, update e.heap p (some (record process_made { host_id = n })))))
  unfolding Executor.spawn set_host_id modify
  executor-cases host = go host.fork refl
    where
      go :
          (f : Fork)
          → host.fork ≡ f
          → ((Executor.spawn (update e.heap p (some process_made)) p true host
                ≡ (failure, update e.heap p (some process_made)))
              × IsStuck e host)
            ⊎ ((n : ℤ) × (f ≡ forked n)
                × (Executor.spawn (update e.heap p (some process_made)) p true host
                    ≡ (success, update e.heap p (some (record process_made { host_id = n })))))
      go fork_failed is = inl (rw (is, Executor.spawn, ==_ne p null live) refl, inl is)
      go (forked n) is = elim (Bool-cases (not host.setpgid && not host.eacces)) [
        | inl lost ↦ inl (rw (is, Executor.spawn, ==_ne p null live, lost) refl, inr (inl lost))
        | inr fine ↦ inr (
          n,
          refl,
          rw
              (
                is,
                Executor.spawn,
                ==_ne p null live,
                fine,
                update_self e.heap p (some process_made),
                set_host_id,
                modify,
              )
              (ap (λ (h : Heap). (success, h)) (update-update e.heap p _ _)),
        )
      ]

  pub spawn_member-Tries :
      (host : SpawnHost)
      → Tries host (spawn_member (at process_made (fresh_group new_gid garbage)) g p true host)
  unfolding spawn_member get_id ProcessGroup.get_host_id
  spawn_member-Tries host =
      rw
        (
          update_self e.heap p (some process_made),
          get_id,
          add-alone e.groups e.heap g p process_made new_gid garbage live refl,
          update_self e.groups g (some (alone new_gid garbage (pos 0) p)),
          ProcessGroup.get_host_id,
        )
        (elim (executor-cases host) [
          | inl (failed, why) ↦ rw failed (
              inl (
                refl,
                spawn_rollback-Cleared e g p name garbage vt room ids live fresh process_made
                    (pos 0) refl,
                why,
              ))
          | inr (n, forks, done) ↦ rw done (spawn_lead-Tries host n forks)
        ])
