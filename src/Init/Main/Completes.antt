-- ===== src/Init/Main/Completes.antt =====
-- What a run of the agent leaves behind.
use native.Mathlib.Omega.{arith}
use azure_init.Prelude.{
  ◌≡◌, refl, ap, sym, ◌∙◌, Bool, true, false, ◌&&◌, ◌||◌, ◌==◌, Bool-cases, inl, inr, Bytes,
  bytes_eq, bytes_eq_sound,
}
use azure_init.Result.{Result, ok, err}
use azure_init.Init.Error.{Error}
use azure_init.Init.Machine.{Machine}
use azure_init.Init.Status.{Disk, is_provisioning_complete, mark_provisioning_complete}
use azure_init.Init.Status.Marks.{succeeded, mark_provisioning_complete_lem}
use azure_init.Init.Main.{
  Given, Ending, failure_code, then_mark, provision_machine, provision_vm, after_provision,
  unless_complete, provision_once,
}

failure_code-positive : (e : Error) → (failure_code e == 0) ≡ false
unfolding failure_code
failure_code-positive e = ground arith

module _ (g : Given) (vm_id other : Bytes) (d : Disk) where
  -- `e` says of the VM `other` what a run from `d` should.
  abbrev Completes : Ending → Type 0
  Completes e =
      is_provisioning_complete e.disk other
      ≡ ((e.exit_code == 0) && bytes_eq vm_id other) || is_provisioning_complete d other

  marked-Completes :
      (m : Machine) (r : Result Error (Unit {0}) × Disk)
      → is_provisioning_complete r.1 other
        ≡ (succeeded r.0 && bytes_eq vm_id other) || is_provisioning_complete d other
      → Completes (after_provision g vm_id (r.0, (m, r.1)))
  marked-Completes m (ok finished, d') h = h
  marked-Completes m (err e, d') h = ground (arith, failure_code-positive e)

  provisioned-Completes :
      (r : Result Error (Unit {0}) × Machine)
      → Completes (after_provision g vm_id (then_mark g vm_id d r))
  provisioned-Completes (ok finished, m) =
      marked-Completes m (mark_provisioning_complete d vm_id)
        (mark_provisioning_complete_lem d vm_id other)
  provisioned-Completes (err e, m) = ground (arith, failure_code-positive e)

  checked-Completes :
      (m : Machine) (b : Bool)
      → is_provisioning_complete d vm_id ≡ b
      → Completes (unless_complete g b vm_id m d)
  unfolding provision_vm
  checked-Completes m false h = provisioned-Completes (provision_machine g m)
  checked-Completes m true h = elim (Bool-cases (bytes_eq vm_id other)) [
    | inl same ↦
        let there = ap (is_provisioning_complete d) (sym (bytes_eq_sound vm_id other same)) ∙ h in
        ground arith
    | inr differs ↦ ground arith
  ]

  -- Whatever fails on the way, behind a run of the agent a VM counts as provisioned exactly if it
  -- did before, or if it is the run's own VM and the exit code is 0.
  pub provision_once-Completes : (m : Machine) → Completes (provision_once g vm_id m d)
  unfolding provision_once
  provision_once-Completes m = checked-Completes m (is_provisioning_complete d vm_id) refl
