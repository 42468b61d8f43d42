-- ===== src/Wire.antt =====
-- server-go/store.go: the records that the store keeps and the HTTP interface shows. An `int64` time
-- is a ℤ, a Go string its bytes, a nil pointer `none`, and a nil slice is the empty list.
use what_is_it.Prelude.{ℤ, Text, List, Option, Bool}

pub record MediaRef : Type 0 where
  pub kind : Text
  pub url : Text
  pub thumb_url : Text
  pub caption : Text
  pub mime : Text

pub record Message : Type 0 where
  pub id : Text
  pub chat : Text
  pub text : Text
  pub dir : Text
  pub time : ℤ
  pub status : Text
  pub reply_to : Text
  pub reactions : List Text
  pub media : Option MediaRef
  pub from_me : Bool

pub record ChatSummary : Type 0 where
  pub id : Text
  pub name : Text
  pub preview : Text
  pub time : ℤ
  pub unread : ℤ
  pub pinned : Bool
  pub group : Bool

pub record Conversation : Type 0 where
  pub messages : List Message
  pub unread : ℤ
  pub pinned : Bool

pub record CallRecord : Type 0 where
  pub id : Text
  pub peer : Text
  pub dir : Text
  pub video : Bool
  pub missed : Bool
  pub time : ℤ

pub record StatusEntry : Type 0 where
  pub sender : Text
  pub name : Text
  pub text : Text
  pub kind : Text
  pub time : ℤ
  pub media : Option MediaRef
