-- ===== src/Services/Exchange.antt =====
-- Requests and replies (rmw_opendds_cpp/src/rmw_client.cpp and src/rmw_server.cpp): the guards of
-- the entry points before the generated type support.
use rmw_opendds.Prelude.{ℕ, Bool, Option, none, some, if◌then◌else◌}
use rmw_opendds.Ret.{RmwRet}
use rmw_opendds.Handles
use rmw_opendds.Handles.{RmwHandle}
use rmw_opendds.Services.Sides.{Side}

-- The rest of `service_type_support_callbacks_t`, for requesters or repliers `R`, messages `M` and
-- headers `H`. A take has a header and a message to write to; a sequence number is its 64 bits.
pub record Transfers (R H M W : Type 0) : Type 0 where
  pub send_request : R → M → W → ℕ × W
  pub send_response : R → H → M → W → Bool × W
  pub take : R → H → M → W → Bool × H × M × W

module _ {B R P E C H M W : Type 0} (transfers : B → Transfers R H M W) where
  -- The code and `sequence_id`.
  unfoldable pub rmw_send_request :
      Option (ℕ × RmwHandle (Side B R P E C)) → Option M → Option ℕ → W → RmwRet × Option ℕ × W
  rmw_send_request client ros_request sequence_id world = elim (Handles.from client) [
    | none ↦ (RmwRet.invalid_argument, sequence_id, world)
    | some found ↦ elim ros_request [
      | none ↦ (RmwRet.invalid_argument, sequence_id, world)
      | some request ↦ elim sequence_id [
        | none ↦ (RmwRet.invalid_argument, none, world)
        | some before ↦
            let (number, sent) =
              (transfers found.1.service.callbacks).send_request found.1.role request world in
            (RmwRet.ok, some number, sent)
      ]
    ]
  ]

  unfoldable pub rmw_send_response :
      Option (ℕ × RmwHandle (Side B R P E C)) → Option H → Option M → W → RmwRet × W
  rmw_send_response service request_header ros_response world = elim (Handles.from service) [
    | none ↦ (RmwRet.invalid_argument, world)
    | some found ↦ elim request_header [
      | none ↦ (RmwRet.invalid_argument, world)
      | some header ↦ elim ros_response [
        | none ↦ (RmwRet.invalid_argument, world)
        | some response ↦
            let (answer, sent) =
              (transfers found.1.service.callbacks).send_response found.1.role header response
                world in
            (if answer then RmwRet.ok else RmwRet.error, sent)
      ]
    ]
  ]

  -- `rmw_take_response` and `rmw_take_request`: the code, the header, the message and `taken`.
  unfoldable pub take_transfer :
      Option (ℕ × RmwHandle (Side B R P E C))
      → Option H
      → Option M
      → Option Bool
      → W
      → RmwRet × Option H × Option M × Option Bool × W
  take_transfer handle request_header ros_message taken world = elim (Handles.from handle) [
    | none ↦ (RmwRet.invalid_argument, request_header, ros_message, taken, world)
    | some found ↦ elim request_header [
      | none ↦ (RmwRet.invalid_argument, none, ros_message, taken, world)
      | some header ↦ elim ros_message [
        | none ↦ (RmwRet.invalid_argument, some header, none, taken, world)
        | some message ↦ elim taken [
          | none ↦ (RmwRet.invalid_argument, some header, some message, none, world)
          | some before ↦
              let (answer, read, written, left) =
                (transfers found.1.service.callbacks).take found.1.role header message world in
              (RmwRet.ok, some read, some written, some answer, left)
        ]
      ]
    ]
  ]
