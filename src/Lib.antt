-- ===== src/Lib.antt =====
-- A model of AdapterSlots++.
--
-- AdapterSlots++ serves many LoRA adapters over one model. lora_warp_pipe/ connects the scheduler and
-- the LoRA kernels of AdapterSlots, a submodule, to a CUDA extension (csrc/); benchmarks/e2e/ has the
-- loops that serve: plain and speculative greedy decoding. The loops are independent of the
-- connection and of each other, except that all of them are to return what plain greedy decoding does.
--
-- Models.antt has what the loops call: a causal language model with its cache, as a parameter.
-- Models/Greedy.antt is the specification, greedy decoding.
--
-- SpecLoops.antt is benchmarks/e2e/spec_loops.py, function for function: nospec_kv, nospec_nokv and
-- spec_kv, the last with its loop state as a record. An exception of the source is `none`. Its loop is
-- on fuel, one round for each token asked for and one more, since a round commits at least a token.
--
-- ServeKvGraph.antt is benchmarks/e2e/serve_kv_graph.py: Graphed.prefill, Graphed.run, graphed_spec and
-- graphed_nospec, over a static cache whose slots are overwritten. A graph's replay is the forward pass
-- that was captured, over static buffers of its own size, into which run copies or broadcasts its inputs;
-- what capture does is not modelled, only whether it has been called. Its loops have the same fuel.
--
-- Dict.antt is a Python dict with string keys. Bridge.antt and its children are
-- lora_warp_pipe/scheduler_bridge.py: AdapterIdMap (Bridge/IdMap.antt), segments_to_warp_pipe
-- (Bridge/Segments.antt), GwarHistory (Bridge/Gwar.antt) and SchedulerBridge.write (Bridge/Write.antt).
-- Integers are unbounded, as in Python; floating-point operations are parameters.
--
-- Punica.antt and its children are lora_warp_pipe/punica_wrapper.py: the table of segments that a decode
-- step builds (Punica/Kernel.antt, from csrc/kernels/warp_pipe_r32.cu), the tokens that the grid of the shrink and
-- expand kernels visits (Punica/Grid.antt, from the same file), the lazy engine, update_metadata
-- and add_lora (Punica/Wrapper.antt), and the installers (Punica/Install.antt). The kernel's threads are a
-- list in the order of their slots; the arithmetic on a row is a parameter, and so is vLLM's own wrapper.
--
-- Engine.antt is WarpPipeConfig and WarpPipeEngine of lora_warp_pipe/config.py and
-- lora_warp_pipe/engine.py. Extension.antt and its children are the extension behind it (csrc/): the
-- adapter store (Extension/Store.antt), the staging pool of the prefetch engine (Extension/Staging.antt),
-- build_segment_table (Extension/Table.antt), the methods of WarpPipeExtension
-- (Extension/Extension.antt), and the memory of the scheduler bridge (Extension/BridgeMemory.antt). CUDA
-- is a parameter, by the laws of a stream whose commands finish in their order and of the events recorded
-- on it (Extension/Cuda.antt); a buffer's contents are the source and the length of the last copy into it, and a copy past the end of
-- a buffer leaves the contents of all of them unknown.
-- Extension/Prefetched.antt has the methods and the device as the steps of one relation: the device may
-- finish a command between any two calls. The relation takes a condition on what may be registered.
-- Adapter ids are the words of int32_t values; a rank that is no int32_t, and the narrowing of a scale to
-- float, are those of the call.
--
-- Multitenant.antt and its children are benchmarks/e2e/serve_multitenant.py: pad_batch, draft_step with its
-- strategies, spec_iter and nospec_iter, over batches of rows of different lengths. A batched model is a
-- parameter, assumed to ignore masked padding and, in a pass with adapters, to read each row with the row's own
-- (Multitenant/Padding.antt). That second assumption is proved of a draft whose projections are wrapped in
-- BGMVLoRALinear (Multitenant/Lora.antt, Multitenant/Routing.antt), where vLLM's kernels and the rest of the
-- network are the parameters.
--
-- KvEager.antt is the cache of benchmarks/e2e/serve_kv_eager.py, which is only appended to, with a mask for
-- each row, and the rollback by that mask; KvEager/Iter.antt is spec_kv_iter with its forward passes, and
-- KvEager/Run.antt is run_kv, from pad_left and KVBatch.prefill on. A model is a parameter there, a function of
-- the slots that its row's mask leaves to see. Of the batch's effect on a row, only the extra forward pass of the
-- draft is left: it happens where any row has accepted all of its proposals. A forward pass of no token raises.
-- The source breaks off behind its
-- iteration 6001, which is the bound of the loop; run_nokv, timed_run and main are not modelled.
--
-- Serving.antt is run_to_completion of benchmarks/e2e/serve_to_completion.py, over Multitenant.antt, without
-- its clock. The source breaks off behind its iteration 4001, which is the bound of the loop.
--
-- Recipe.antt is distill_draft_es of benchmarks/e2e/recipe.py: the checkpoints, the validation by spec_kv and
-- the selection of the draft that is deployed. What training makes of a seed is a parameter.
--
-- Not modelled: training, timing, the kernels' arithmetic, and the programs' command lines and files.
pub mod Common
pub mod Models
pub mod SpecLoops
pub mod ServeKvGraph
pub mod Dict
pub mod Engine
pub mod Extension
pub mod Bridge
pub mod Punica
pub mod KvEager
pub mod Multitenant
pub mod Serving
pub mod Recipe
pub mod Tests
