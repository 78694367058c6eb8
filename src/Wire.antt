-- ===== src/Wire.antt =====
-- src/pkg/wire/codec.go: the messages that nodes exchange. Their text is a matter of Go's
-- encoding/json, which is a parameter.
use failure_detector.Prelude.{ℕ, List, Option}
use failure_detector.Go.Text.{Text}
use failure_detector.Config.{ConfigDto}
use failure_detector.Store.{MemberEntry}

-- MsgType
pub data MsgType : Type 0 where
  msg_gossip msg_ping msg_ack : MsgType
  msg_other : ℕ → MsgType

-- Message
pub record Message : Type 0 where
  pub msg_type : MsgType
  pub nonce : ℕ  -- uint64
  pub list : List MemberEntry
  pub cfg : Option ConfigDto

-- JoinRequest
pub record JoinRequest : Type 0 where
  pub list : List MemberEntry

-- JoinResponse
pub record JoinResponse : Type 0 where
  pub config_dto : ConfigDto
  pub list : List MemberEntry

-- json.Marshal and json.Unmarshal on messages; `none` is an error.
pub record MessageText : Type 0 where
  pub marshal : Message → Option Text
  pub unmarshal : Text → Option Message

-- EncodeMessage
abbrev pub encode_message : MessageText → Message → Option Text
encode_message json m = json.marshal m

-- DecodeMessage
abbrev pub decode_message : MessageText → Text → Option Message
decode_message json b = json.unmarshal b
