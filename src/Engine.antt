-- ===== src/Engine.antt =====
-- `WarpPipeConfig` of lora_warp_pipe/config.py and `WarpPipeEngine` of lora_warp_pipe/engine.py, over
-- the extension. `import warp_pipe_ext` and the kernels that `shrink` and `expand` launch are not
-- modelled: a launch is the kernel that is picked, with its sizes.
pub mod Register
use adapter_slots_plus_plus.Common.{
  ℕ, ◌==◌, List, Option, none, some, Bool, true, false, ◌&&◌, if◌then◌else◌,
}
use adapter_slots_plus_plus.Bridge.Gwar.{Floats}
use adapter_slots_plus_plus.Bridge.Write.{Metadata}
use adapter_slots_plus_plus.Extension.Cuda.{Cuda}
use adapter_slots_plus_plus.Extension.Staging.{no_adapter}
use adapter_slots_plus_plus.Extension.Extension.{WarpPipeExtension, Tensor, new_extension}
use adapter_slots_plus_plus.Extension.Extension
use adapter_slots_plus_plus.Extension.BridgeMemory.{KernelBridge, new_bridge_memory, write_memory}
use adapter_slots_plus_plus.Extension.BridgeMemory

pub record WarpPipeConfig : Type 0 where
  pub enabled : Bool
  pub rank : ℕ
  pub num_staging_slots : ℕ
  pub min_segment_tokens : ℕ

-- `WarpPipeConfig()`
abbrev pub default_config : WarpPipeConfig
default_config = record { enabled = true; rank = 32; num_staging_slots = 8; min_segment_tokens = 4 }

-- The kernels that `dispatch_bgmv_shrink` and `dispatch_bgmv_expand` choose from, by their rank.
pub data RankKernel : Type 0 where
  r8 : RankKernel
  r16 : RankKernel
  r32 : RankKernel
  r64 : RankKernel

-- `none` is the exception on any other rank.
unfoldable pub dispatch : ℕ → Option RankKernel
dispatch rank =
    if rank == 8
    then some r8
    else (if rank == 16
        then some r16
        else (if rank == 32 then some r32 else (if rank == 64 then some r64 else none)))

module _ (cuda : Cuda) (fl : Floats) where
  open fl use {Float, ratio, to_float32}

  -- The extension object, and the memory of its bridge.
  pub record WarpPipeEngine : Type 0 where
    pub config : WarpPipeConfig
    pub ext : WarpPipeExtension cuda Float
    pub bridge : KernelBridge fl

  -- `config or WarpPipeConfig()`
  unfoldable pub new_warp_pipe_engine : Option WarpPipeConfig → WarpPipeEngine
  new_warp_pipe_engine config = record {
    config = elim config [ none ↦ default_config | some c ↦ c ];
    ext = new_extension cuda Float (ratio 0 1);
    bridge = new_bridge_memory fl;
  }

  -- `rank or self.config.rank`: 0 is none, too.
  unfoldable pub chosen_rank : WarpPipeEngine → Option ℕ → ℕ
  chosen_rank eng rank = elim rank [
    | none ↦ eng.config.rank
    | some r ↦ if r == 0 then eng.config.rank else r
  ]

  -- The extension's `alpha_scale` is a C++ `float`. `none` is an exception here and below.
  unfoldable pub register_adapter :
      WarpPipeEngine → ℕ → Tensor → Tensor → Float → Option ℕ → Option WarpPipeEngine
  unfolding chosen_rank
  register_adapter eng adapter_id a b alpha_scale rank =
      elim (Extension.register_adapter cuda Float eng.ext adapter_id a b (chosen_rank eng rank)
        (to_float32 alpha_scale)) [ none ↦ none | some x ↦ some (record eng { ext = x }) ]

  unfoldable pub evict_adapter : WarpPipeEngine → ℕ → WarpPipeEngine
  evict_adapter eng adapter_id = record eng {
    ext = Extension.evict_adapter cuda Float eng.ext adapter_id;
  }

  -- The table is written in either case; `false` is the exception.
  unfoldable pub build_segments : WarpPipeEngine → List ℕ → List ℕ → WarpPipeEngine × Bool
  build_segments eng sorted_adapter_ids seg_offsets =
      let built = Extension.build_segments cuda Float eng.ext sorted_adapter_ids seg_offsets in
      (record eng { ext = built.0 }, built.1)

  unfoldable pub shrink : WarpPipeEngine → Tensor → ℕ → ℕ → ℕ → Option (RankKernel × ℕ × ℕ)
  unfolding dispatch
  shrink eng x d_model rank total_tokens =
      if x.is_cuda_half_contiguous
      then elim (dispatch rank) [ none ↦ none | some k ↦ some (k, d_model, total_tokens) ]
      else none

  unfoldable pub expand : WarpPipeEngine → Tensor → Tensor → ℕ → ℕ → Option (RankKernel × ℕ)
  unfolding dispatch
  expand eng h y out_features rank =
      if h.is_cuda_half_contiguous && y.is_cuda_half_contiguous
      then elim (dispatch rank) [ none ↦ none | some k ↦ some (k, out_features) ]
      else none

  unfoldable pub read_bridge_debug : WarpPipeEngine → Metadata fl
  read_bridge_debug eng = BridgeMemory.read_bridge_debug fl eng.bridge

  -- The kernel's copy; `cast` is the conversion of an `int32_t` word to float.
  unfoldable pub read_bridge_via_kernel : (ℕ → Float) → WarpPipeEngine → List Float
  read_bridge_via_kernel cast eng = BridgeMemory.read_bridge_via_kernel fl cast eng.bridge

  -- The slot's index, or the word of -1.
  unfoldable pub prefetch_adapter : WarpPipeEngine → ℕ → WarpPipeEngine × ℕ
  prefetch_adapter eng adapter_id =
      let fetched = Extension.prefetch_adapter cuda Float eng.ext adapter_id in
      (record eng { ext = fetched.0 }, elim fetched.1 [ none ↦ no_adapter | some i ↦ i ])

  unfoldable pub is_prefetch_ready : WarpPipeEngine → ℕ → Bool
  is_prefetch_ready eng adapter_id = Extension.is_prefetch_ready cuda Float eng.ext adapter_id

  unfoldable pub release_prefetch : WarpPipeEngine → ℕ → WarpPipeEngine
  release_prefetch eng adapter_id = record eng {
    ext = Extension.release_prefetch cuda Float eng.ext adapter_id;
  }

  unfoldable pub write_bridge : WarpPipeEngine → Metadata fl → Option WarpPipeEngine
  write_bridge eng w = elim (write_memory fl eng.bridge w) [
    | none ↦ none
    | some k ↦ some (record eng { bridge = k })
  ]
