-- ===== src/Runtime/Frames.antt =====
-- The protocol frames of useGatewayRuntimeStore.ts: at most 256, no id twice, and those of them
-- that an operator sees.
use mathlib.Core.List.{reverse}
use aethor_studio_v.Prelude.{
  ℕ, zero, suc, Bool, true, false, ◌&&◌, ◌||◌, List, [], ◌∷◌, ◌++◌, Text, take_last, filter, all,
  map, if◌then◌else◌, text_eq, text_mem, trim, codes,
}
use aethor_studio_v.Contracts.{ProtocolFrame, Direction, tx, rx}

-- The loop of `uniqueProtocolFrames` over the frames from the last to the first: `room` is how many
-- more it takes.
unfoldable pub unique_newest : ℕ → List Text → List ProtocolFrame → List ProtocolFrame
unique_newest room seen [] = []
unique_newest zero seen (frame ∷ frames) = []
unique_newest (suc room) seen (frame ∷ frames) =
    let skipped = unique_newest (suc room) seen frames in
    let taken = frame ∷ unique_newest room (frame.id ∷ seen) frames in
    if text_mem frame.id seen then skipped else taken

unfoldable pub unique_protocol_frames : List ProtocolFrame → List ProtocolFrame
unique_protocol_frames frames = reverse (unique_newest 256 [] (reverse frames))

abbrev pub is_direction : Direction → Direction → Bool
is_direction tx tx = true
is_direction rx rx = true
is_direction Direction.error Direction.error = true
is_direction _ _ = false

unfoldable pub is_routine_joint_position_frame : ProtocolFrame → Bool
is_routine_joint_position_frame frame =
    is_direction frame.direction tx && text_eq (trim frame.raw) (codes "#GETJPOS")
    || is_direction frame.direction rx && text_eq frame.parsed_kind (codes "jointPositions")

abbrev pub ids_of : List ProtocolFrame → List Text
ids_of frames = map (λ frame. frame.id) frames

-- `[...state.protocolFrames.slice(-255), frame]`
unfoldable pub append_frame : List ProtocolFrame → ProtocolFrame → List ProtocolFrame
append_frame frames frame = take_last 255 frames ++ (frame ∷ [])

unfoldable pub retained_operators : List ProtocolFrame → List ProtocolFrame → List ProtocolFrame
retained_operators operators frames =
    if all (λ candidate. text_mem candidate.id (ids_of frames)) operators
    then operators
    else filter (λ candidate. text_mem candidate.id (ids_of frames)) operators
