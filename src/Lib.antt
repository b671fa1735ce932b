-- ===== src/Lib.antt =====
-- Frost is a RISC-V processor in SystemVerilog (hw/rtl) whose out-of-order core is checked, in
-- simulation and on every cycle, against golden models written in Python. This library is about
-- those models, the classes under verif/cocotb_tests/tomasulo: what they promise is what the core
-- is held to. Paths are from the repository's root.
--
-- The parts, in the order in which an instruction meets them:
--   * the alias table (Rat, for register_alias_table/rat_model.py, class RATModel) maps each
--     architectural register to the tag of the instruction that will produce it; a branch saves
--     the map in one of eight checkpoints and a misprediction restores it;
--   * the reorder buffer (Rob, for reorder_buffer/reorder_buffer_model.py, class
--     ReorderBufferModel) hands out the tags, takes results in any order, and retires from its
--     head, where a small state machine makes serializing instructions wait;
--   * the reservation station (Station, for reservation_station/rs_model.py, class RSModel) holds
--     an instruction until its sources have been broadcast, and issues it;
--   * the common data bus (Cdb, for cdb_arbiter/cdb_arbiter_model.py and
--     fu_cdb_adapter/fu_cdb_adapter_model.py) carries two results a cycle; a functional unit whose
--     result is not granted keeps it in its adapter;
--   * the store queue (StoreQueue, for store_queue/sq_model.py, class SQModel) keeps stores in
--     program order until they are committed and written;
--   * the load queue (LoadQueue, for load_queue/lq_model.py, class LQModel) sends loads and atomics
--     to memory, extends what comes back, and stages one result for the bus.
-- Core (for tomasulo_wrapper/tomasulo_model.py, class TomasuloModel) joins the buffer, the table and
-- six stations: dispatch, try_commit, fu_complete, the recoveries and the calls passed on.
-- The benches feed the core with instructions that Encode packs (for verif/encoders,
-- instruction_encode.py and compressed_encode.py): Encode has the 32-bit formats, Encode.Integer and
-- Encode.Float the functions that use them, Encode.Compressed and Encode.CompressedAlu the 16-bit
-- encoders, Encode.Decode the manual's reading of a word; Bits has the laws of `|`, `<<` and `&`.
-- What the instructions compute is in Models (for verif/models and verif/utils/riscv_utils.py): Models
-- has sign extension, Models.Memory the dictionary of bytes of class MemoryModel, Models.Branch the
-- branch decision, Models.Alu, Models.Muldiv and Models.Bitmanip the evaluators of alu_model.py;
-- Models.ReadWrite, Models.MemoryHistory, Models.Signed, Models.Products, Models.Division,
-- Models.Quotients, Models.Rotate and Models.Shuffle have their laws.
-- The parts share five-bit reorder-buffer tags: the buffer's slot is the tag in the alias table, in the
-- stations, on the bus and in both queues, and after a misprediction each drops what is younger
-- than the branch, by its distance from the buffer's head.
--
-- In each part the root file holds the state as a record and a function for each method, under the
-- method's name. A method that changes the object returns the new object; an exception is a value
-- (Result in Rob, Option elsewhere). Children of a part hold further operations (Rob.Commit,
-- Rob.Flush, Rat.Checkpoint, Station.Issue, Station.Recovery, Cdb.Adapter, LoadQueue.Memory,
-- LoadQueue.Recovery), the abstract view that the operations are compared with (Rob.Queue,
-- StoreQueue.Live, Rat.Mapping, Rat.Image, Core.Renaming), the proofs, and concrete runs (Tests). The
-- histories (Rob.History, Rat.History, StoreQueue.History, Core.History, Models.MemoryHistory) are
-- step relations over the calls that change the state; in Core.History mispredictions are undone by a
-- full flush, and Core.Recoveries has the calls of misprediction_recovery too.
--
-- Shared files: Prelude (Boolean tests, lists with native indices, words), Ring (a window of a
-- circular buffer as a list), Ring.Slots (pushing into it) and Ring.Select (filtering it), Bits.
--
-- Bounds: the buffer has 32 slots and the queues 8, as the models' defaults have; a station has
-- any number. Pointers count modulo twice the depth. Python ints are natural numbers here, and
-- a mask of k low bits is a remainder modulo 2 ^ k, also where the source subtracts first; the
-- immediates and offsets of the encoders and the values of sign_extend are signed (Prelude.Int). The
-- memory has 2 ^ 16 bytes, and its addresses wrap there. XLEN is 32 (Prelude.Words): the models of the
-- 64-bit core, which FROST_RV64=1 selects in verif/config.py and whose two memory queues mask
-- addresses and data with 64 bits, are not covered. Three
-- loops run on fuel: the walk of flush_partial over the slots has 32 rounds, which reach any slot,
-- and those of the queues' advance_head 9, for eight slots and the last test; the results below
-- show that none runs out.
--
-- Not modelled: the floating-point model, which stands on the host's floats; the CPU model, the
-- instruction executor and the generators; the operation tables, which are data; the cocotb
-- benches, monitors and drivers, which are input and output around the models; the dump_state
-- methods; the RTL itself, and the build, FPGA and software trees.
pub mod Bits
pub mod Cdb
pub mod Core
pub mod Encode
pub mod LoadQueue
pub mod Models
pub mod Prelude
pub mod Ring
pub mod Rat
pub mod Rob
pub mod Station
pub mod StoreQueue
