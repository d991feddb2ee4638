-- ===== src/Tests/Serialization.antt =====
-- Serialization at concrete inputs: the messages are bytes.
use rmw_opendds.Prelude.{
  arith, ap, sym, some-injective, ◌≡◌, refl, Bool, true, false, Option, none, some, [], ◌∷◌, length,
}
use rmw_opendds.Text.{Bytes}
use rmw_opendds.Ret.{RmwRet}
use rmw_opendds.Messages.{Stream, no_stream}
use rmw_opendds.Serialization.{
  Callbacks, TypeSupport, ReadsBack, rmw_get_message_type_support, rmw_serialize, rmw_deserialize,
  rmw_deserialize-rmw_serialize,
}

abbrev stream_of : Bytes → Stream
stream_of bytes = record {
  buffer = some bytes;
  buffer_length = length bytes;
  buffer_capacity = length bytes;
}

abbrev written : Option Bytes → Option Stream → Bool × Option Stream
written none s = (false, s)
written (some bytes) none = (false, none)
written (some bytes) (some s) = (true, some (stream_of bytes))

abbrev read : Option Stream → Option Bytes → Bool × Option Bytes
read none old = (false, old)
read (some s) old = (true, s.buffer)

abbrev callbacks : Callbacks Bytes
callbacks = record { to_cdr_stream = written; to_message = read }

abbrev support : TypeSupport Bytes
support = record { handle_c = none; handle_cpp = some (some callbacks) }

callbacks-ReadsBack : (m : Bytes) → ReadsBack callbacks m
callbacks-ReadsBack m none after old h = ground (arith, h)
callbacks-ReadsBack m (some before) after old h = rw (sym (ap (λ p. p.1) h)) refl

rmw_deserialize_example :
    rmw_deserialize (some (stream_of (5 ∷ 6 ∷ []))) (some support) (some [])
    ≡ (RmwRet.ok, some (5 ∷ 6 ∷ []))
unfolding rmw_serialize rmw_get_message_type_support
rmw_deserialize_example =
    rmw_deserialize-rmw_serialize (some support) (5 ∷ 6 ∷ []) [] (some no_stream)
      (some (stream_of (5 ∷ 6 ∷ [])))
      (λ found e. rw (sym (some-injective (some-injective e))) (callbacks-ReadsBack (5 ∷ 6 ∷ [])))
      refl
