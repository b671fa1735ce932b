-- ===== src/Station/Tests.antt =====
-- The reservation station at concrete inputs.
use frost.Prelude.{
  ℕ, ◌<◌, ◌≡◌, refl, ◌⊎◌, true, false, ◌&&◌, none, some, [], ◌∷◌, get_or, set, take, length, any_of,
}
use frost.Station.{
  Station, Request, Bus, blank_entry, blank_payload, is_ready, is_blocked, new_entry, dispatch,
  cdb_snoop,
}
use frost.Station.Dispatch.{itself, slots_free, quiet, dispatch_chooses, snoop-dispatch}
use frost.Station.Issue.{build_issue_dict, release, try_issue, try_issue_chooses}

-- An instruction that waits for tag 7.
abbrev waits : Request
waits = record {
  rob_tag = 9;
  src1 = record { ready = false; tag = 7; value = 0 };
  src2 = record { ready = true; tag = 0; value = 5 };
  src3 = record { ready = true; tag = 0; value = 0 };
  payload = blank_payload;
}

abbrev result : Bus
result = record { valid = true; tag = 7; value = 11 }

abbrev held : Station
held = record {
  depth = 2;
  entries = new_entry waits result ∷ blank_entry ∷ [];
  strict_alloc_timing = true;
  alloc_blocked = [];
}

dispatch_chooses_example :
    ((k : ℕ) × (dispatch held waits quiet
        ≡ (some k, record held { entries = set held.entries k (new_entry waits quiet) }))
      × (k < length held.entries)
      × ((get_or held.entries k blank_entry).valid ≡ false)
      × (is_blocked held.alloc_blocked k ≡ false)
      × (any_of itself (take k (slots_free held)) ≡ false))
    ⊎ ((dispatch held waits quiet ≡ (none, held)) × (any_of itself (slots_free held) ≡ false))
dispatch_chooses_example = dispatch_chooses held waits quiet

snoop-dispatch_example :
    ((dispatch (cdb_snoop held 7 11) waits result).0 ≡ (dispatch held waits quiet).0)
    × ((dispatch (cdb_snoop held 7 11) waits result).1
        ≡ cdb_snoop (dispatch held waits quiet).1 7 11)
snoop-dispatch_example = snoop-dispatch held waits result refl

try_issue_chooses_example :
    ((k : ℕ) × ((try_issue held true).0
        ≡ some (build_issue_dict (get_or held.entries k blank_entry)))
      × (true ≡ true)
      × (is_ready (get_or held.entries k blank_entry) ≡ true)
      × (any_of is_ready (take k held.entries) ≡ false)
      × ((try_issue held true).1.entries
          ≡ set held.entries k (release (get_or held.entries k blank_entry))))
    ⊎ ((try_issue held true ≡ (none, held)) × ((true && any_of is_ready held.entries) ≡ false))
try_issue_chooses_example = try_issue_chooses held true
