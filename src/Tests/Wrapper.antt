-- ===== src/Tests/Wrapper.antt =====
-- Examples for lora_warp_pipe/punica_wrapper.py: rows are numbers, and an adapter adds its own
-- number to a row.
use adapter_slots_plus_plus.Common.{
  ℕ, ◌+◌, ◌*◌, ◌≡◌, refl, List, [], ◌∷◌, none, some, Bool, true, false, arith, replicate,
}
use adapter_slots_plus_plus.Punica.Kernel.{Index, build_seg_bounds_kernel}
use adapter_slots_plus_plus.Punica.Bounds.{rows, tagged, build_seg_bounds_kernel-tagged}
use adapter_slots_plus_plus.Punica.Wrapper.{
  warp_pipe, metadata_only, fused, Wrapper, Process, Call, Result, done, falls_back, is_given,
  update_metadata, dummy, add_lora, warp_pipe_available,
}
use adapter_slots_plus_plus.Punica.Step.{
  apply_adapters, update_metadata-add_lora, update_metadata-stale,
}
use adapter_slots_plus_plus.Punica.Install.{
  InstallsOnce, install_warp_pipe_dummy, install_warp_pipe_metadata_only,
  install_warp_pipe_add_lora, install_lem, with_class,
}

-- Seven tokens of two adapters, one of them with none.
abbrev indices : List Index
indices = some 2 ∷ some 2 ∷ none ∷ some 5 ∷ some 5 ∷ some 5 ∷ some 2 ∷ []

build_seg_bounds_kernel-tagged_example :
    rows (build_seg_bounds_kernel indices)
    ≡ (0, 2) ∷ (1, 2) ∷ (3, 5) ∷ (4, 5) ∷ (5, 5) ∷ (6, 2) ∷ []
unfolding tagged
build_seg_bounds_kernel-tagged_example = build_seg_bounds_kernel-tagged indices (omega arith)

abbrev process : Bool → Process
process on = record { import_ok = true; as_warp_pipe = on; engine = none }

abbrev decode : List Index → Wrapper
decode l = record { is_prefill = false; token_lora_indices = l; indices_on_cuda = true }

abbrev call : List ℕ → Call ℕ
call x = record {
  x = x;
  lora = λ a x_i y_i. y_i + a * x_i;
  y_offset = none;
  y_slice_size = none;
  is_cuda = true;
  well_formed = true;
  rank = 32;
}

abbrev stock_add_lora : Wrapper → Call ℕ → List ℕ → Result ℕ
stock_add_lora w c y = done (apply_adapters c.lora w.token_lora_indices c.x y)

abbrev ones : List ℕ
ones = 1 ∷ 1 ∷ 1 ∷ 1 ∷ 1 ∷ 1 ∷ 1 ∷ []

update_metadata-add_lora_example :
    (after : Process) × (update_metadata (process true) warp_pipe (decode indices) ≡ some after)
    × (add_lora ℕ stock_add_lora after warp_pipe (decode indices) (call ones) ones
        ≡ (done (3 ∷ 3 ∷ 1 ∷ 6 ∷ 6 ∷ 6 ∷ 3 ∷ []), after))
unfolding falls_back warp_pipe_available is_given
update_metadata-add_lora_example =
    update_metadata-add_lora stock_add_lora (process true) (decode indices) (call ones) ones refl
      refl refl (omega arith) (omega arith) (omega arith)

-- A step of 300 tokens, all of adapter 7.
abbrev large : List Index
large = replicate 300 (some 7)

abbrev many_ones : List ℕ
many_ones = replicate 300 1

update_metadata-stale_example :
    (before : Process) × (after : Process) × (update_metadata
        (process true)
        warp_pipe
        (decode indices)
      ≡ some before)
    × (update_metadata before warp_pipe (decode large) ≡ some after)
    × (add_lora ℕ stock_add_lora after warp_pipe (decode large) (call many_ones) many_ones
        ≡ (done (apply_adapters (call many_ones).lora indices many_ones many_ones), after))
unfolding falls_back warp_pipe_available is_given
update_metadata-stale_example =
    update_metadata-stale stock_add_lora (process true) (decode indices) (decode large)
      (call many_ones) many_ones refl refl refl refl refl (omega arith) (omega arith) (omega arith)
      (omega arith)

install_lem_example :
    let m = some (with_class fused) in
    InstallsOnce true (install_warp_pipe_dummy true) dummy m
    × InstallsOnce true (install_warp_pipe_metadata_only true (process true)) metadata_only m
    × InstallsOnce true (install_warp_pipe_add_lora true (process true)) warp_pipe m
install_lem_example = install_lem true (process true) (some (with_class fused))
