-- ===== src/Engine/Register.antt =====
-- `WarpPipeEngine.register_adapter` of lora_warp_pipe/engine.py, through the checks of the extension
-- and of its store.
use adapter_slots_plus_plus.Common.{
  ℕ, ◌<◌, ltb, lt→ltb, zero, suc, ◌%◌, ◌≡◌, ◌≢◌, sym, refl, Option, none, some, true, ◌==◌, arith,
  ==_iff,
}
use adapter_slots_plus_plus.Bridge.Gwar.{Floats}
use adapter_slots_plus_plus.Extension.Cuda.{Cuda}
use adapter_slots_plus_plus.Extension.Store.{
  lookup, assign_entry, lookup-assign_entry_self, lookup-assign_entry_ne,
}
use adapter_slots_plus_plus.Extension.Store
use adapter_slots_plus_plus.Extension.Extension.{Tensor, entry_of}
use adapter_slots_plus_plus.Extension.Extension
use adapter_slots_plus_plus.Engine.{WarpPipeEngine, chosen_rank, register_adapter}

-- The rank of a registration: the one given, if it is not 0, or else the default.
abbrev pub rank_or : ℕ → Option ℕ → ℕ
rank_or default none = default
rank_or default (some zero) = default
rank_or default (some (suc r)) = suc r

-- A tensor that the extension takes: contiguous fp16 on the device, on a 16-byte boundary.
abbrev pub IsWeight : Tensor → Type 0
IsWeight t = (t.is_cuda_half_contiguous ≡ true) × (t.data_ptr % 16 ≡ 0)

aligned_test : (p : ℕ) → p % 16 ≡ 0 → (p % 16 == 0) ≡ true
aligned_test p h = (==_iff (p % 16) 0).1 h

module _ (cuda : Cuda) (fl : Floats) (eng : WarpPipeEngine cuda fl) (id : ℕ) (a b : Tensor)
    (alpha_scale : fl.Float) (rank : Option ℕ) where
  chosen_rank_lem : chosen_rank cuda fl eng rank ≡ rank_or eng.config.rank rank
  unfolding chosen_rank
  chosen_rank_lem = go rank
    where
      go : (r : Option ℕ) → chosen_rank cuda fl eng r ≡ rank_or eng.config.rank r
      go none = refl
      go (some zero) = refl
      go (some (suc r)) = ground arith

  -- Two tensors that the extension takes are registered under the id, with the rank given or else
  -- the configuration's, which is to be an `int32_t`, the scale narrowed to a `float`, their sizes and their pointers, in place of what the id stood for; every
  -- other id stands for what it did, and the staging slots, the device and the table stay.
  pub register_adapter_lem :
      (j : ℕ)
      → IsWeight a
      → IsWeight b
      → rank_or eng.config.rank rank < 0x80000000
      → j ≢ id
      → (eng' : WarpPipeEngine cuda fl) × (register_adapter cuda fl eng id a b alpha_scale rank
          ≡ some eng')
        × (lookup eng'.ext.store id
            ≡ some (record {
              a_ptr = a.data_ptr;
              b_ptr = b.data_ptr;
              rank = rank_or eng.config.rank rank;
              d_model = a.columns % 0x100000000;
              out_features = b.rows % 0x100000000;
              alpha_scale = fl.to_float32 alpha_scale;
            }))
        × (lookup eng'.ext.store j ≡ lookup eng.ext.store j)
        × (eng'.ext.slots ≡ eng.ext.slots)
        × (eng'.ext.device ≡ eng.ext.device)
        × (eng'.ext.meta ≡ eng.ext.meta)
  unfolding register_adapter Extension.register_adapter Store.register_adapter
  register_adapter_lem j (ok_a, aligned_a) (ok_b, aligned_b) small ne =
      let int32 : ltb (chosen_rank cuda fl eng rank) 0x80000000 ≡ true =
        lt→ltb _ _ (rw (← chosen_rank_lem) at small) in
      let store =
        assign_entry eng.ext.store id
          (entry_of cuda fl.Float a b (chosen_rank cuda fl eng rank) (fl.to_float32 alpha_scale)) in
      (
        record eng { ext = record eng.ext { store = store } },
        ground arith,
        rw (← chosen_rank_lem) (
            lookup-assign_entry_self eng.ext.store id (
              entry_of cuda fl.Float a b (chosen_rank cuda fl eng rank)
                (fl.to_float32 alpha_scale))),
        lookup-assign_entry_ne eng.ext.store id j _ (λ e. ne (sym e)),
        refl,
        refl,
        refl,
      )
