-- ===== src/Video/Pipeline/Bus.antt =====
-- The messages of the bus, pipeline.cpp: `dispatch` and the loop of the bus thread.
use optronic.Common.{
  Bool, true, false, ◌&&◌, ◌||◌, Option, none, some, List, [], ◌∷◌, if◌then◌else◌,
}
use optronic.Common.Text.{Text, codes, same}
use optronic.Core.Error.{vid_build, vid_encoder_lost, to_u16}
use optronic.Video.Frame.{BusEvent, bus_error, bus_warning, bus_eos, bus_qos_drop}
use optronic.Video.Pipeline.{Impl, add_one}

-- A message of the bus: the name of its element, and what kind of message it is.
pub data Message : Type 0 where
  error_message : Option Text → Option Text → Message
  warning_message eos_message qos_message other_message : Option Text → Message

abbrev pub text_or_empty : Option Text → Text
text_or_empty none = []
text_or_empty (some t) = t

unfoldable pub starts_with : Text → Text → Bool
starts_with [] s = true
starts_with (c ∷ cs) [] = false
starts_with (c ∷ cs) (d ∷ ds) = same (c ∷ []) (d ∷ []) && starts_with cs ds

unfoldable pub contains : Text → Text → Bool
contains part [] = starts_with part []
contains part (c ∷ cs) = starts_with part (c ∷ cs) || contains part cs

-- The event that reaches the bus sink, if any.
unfoldable pub dispatch : Message → Impl → Option BusEvent × Impl
dispatch (error_message source text) i =
    let element = text_or_empty source in
    (
      some (record {
        kind = bus_error;
        element = element;
        code = to_u16 (if contains (codes "enc") element then vid_encoder_lost else vid_build);
        text = text_or_empty text;
      }),
      i,
    )
dispatch (warning_message source) i =
    (some (record { kind = bus_warning; element = text_or_empty source; code = 0; text = [] }), i)
dispatch (eos_message source) i =
    (some (record { kind = bus_eos; element = text_or_empty source; code = 0; text = [] }), i)
dispatch (qos_message source) i = (
  some (record { kind = bus_qos_drop; element = text_or_empty source; code = 0; text = [] }),
  record i { drops = add_one i.drops },
)
dispatch (other_message source) i = (none, i)

module _ {W : Type 0} (on_bus : BusEvent → W → W) where
  abbrev pub report : Option BusEvent → W → W
  report none w = w
  report (some e) w = on_bus e w

  -- The turns of the loop up to the stop request: a turn waits for a message or in vain.
  unfoldable pub bus_loop : List (Option Message) → Impl → W → Impl × W
  unfolding dispatch
  bus_loop [] i w = (i, w)
  bus_loop (none ∷ turns) i w = bus_loop turns i w
  bus_loop (some m ∷ turns) i w = let (e, i') = dispatch m i in bus_loop turns i' (report e w)
