-- ===== src/Core/Undo.antt =====
-- What a misprediction recovery leaves in all parts of the core.
use frost.Prelude.{
  ℕ, ◌%◌, ◌<◌, ◌≡◌, refl, true, some, List, [], ◌∷◌, map, take, select, get_or, bit, bit_xor,
}
use frost.Rob.{entry_at, head_idx}
use frost.Rob.Refine.{contents}
use frost.Rob.Recovery.{kept, flush_partial_refines}
use frost.Station.{Station}
use frost.Station.Recovery.{waiting, survives, partial_flush, flushes_keep}
use frost.Rat.Checkpoint.{Save, checkpoint_save}
use frost.Rat.{Rat, blank_slot}
use frost.Rat.Mapping.{mapping}
use frost.Rat.Mapping as table
use frost.Rob.Inv as rob
use frost.Rat.Overlay.{fits}
use frost.Rat.Image.{image_at, keep}
use frost.Rat.Restore.{restore-save}
use frost.Core.{Core, misprediction_recovery, no_window}

all_waiting :
    (f h : ℕ) (ss : List Station)
    → map waiting (map (λ s. partial_flush s f h) ss)
      ≡ map (λ s. select (survives f h) (waiting s)) ss
all_waiting f h [] = refl
all_waiting f h (s ∷ ss) = rw ((flushes_keep s f h).0, all_waiting f h ss) refl

-- A recovery to a tag in flight, with a checkpoint that was saved and has been left alone since,
-- succeeds. It cuts the reorder buffer's queue behind the tag's entry, and leaves in each station
-- the instructions not younger than the tag. The alias table is that of the save, less the mappings
-- whose tag is not below that of the checkpoint's branch: ages are counted from tag 0, wherever the
-- buffer's head is.
pub core_recovers :
    (c : Core) (m m' : Rat) (id f : ℕ) (s : Save)
    → rob.IsValid c.rob
    → f < 32
    → (entry_at c.rob f).valid ≡ true
    → table.IsValid m
    → table.IsValid c.rat
    → id < 8
    → fits s.overlay ≡ true
    → checkpoint_save m id s ≡ some m'
    → get_or c.rat.checkpoints id blank_slot ≡ get_or m'.checkpoints id blank_slot
    → (c' : Core) × (misprediction_recovery c id f ≡ some c')
      × (contents c'.rob ≡ take (kept c.rob f) (contents c.rob))
      × (map waiting c'.stations
          ≡ map (λ st. select (survives f (head_idx c'.rob)) (waiting st)) c.stations)
      × ((g r : ℕ)
          → mapping c'.rat g r
            ≡ keep no_window
                (s.branch_tag % 32)
                (bit_xor (bit s.rob_entry_epoch (s.branch_tag % 32)) 1)
                (image_at m s g r))
unfolding misprediction_recovery
core_recovers c m m' id f s v lt live vm vr lt' h e same =
    let (n, r', er, cut, _, _) = flush_partial_refines c.rob f v lt live in
    let (a, ea, at, _, _) = restore-save m m' c.rat id s no_window vm vr lt' h e same in
    (
      record {
        rob = r';
        rat = a;
        stations = map (λ st. partial_flush st f (head_idx r')) c.stations;
      },
      rw (er, ea) refl,
      cut,
      all_waiting f (head_idx r') c.stations,
      at,
    )
