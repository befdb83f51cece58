-- ===== src/Proto/Capability.antt =====
-- crates/zyris-proto/src/capability.rs: descriptors, and the names of methods. A JSON schema is
-- kept as its text.
pub mod Names
use zyris_protocol.Prelude.{
  ℕ, Text, Option, none, some, List, [], ◌∷◌, ◌++◌, ◌==◌, if◌then◌else◌, text_eq,
}

pub data Transfer : Type 0 where
  unary uni_stream bi_stream video : Transfer

pub data CallLimit : Type 0 where
  secs : ℕ → CallLimit
  unlimited : CallLimit

pub record ToolDescriptor : Type 0 where
  pub name : Text
  pub description : Text
  pub transfer : Transfer
  pub request_schema : Text
  pub response_schema : Option Text
  pub item_schema : Option Text
  pub call_limit : Option CallLimit

pub record CapabilityDescriptor : Type 0 where
  pub name : Text
  pub version : ℕ
  pub tools : List ToolDescriptor

find_tool : Text → List ToolDescriptor → Option ToolDescriptor
find_tool name [] = none
find_tool name (t ∷ ts) = if text_eq t.name name then some t else find_tool name ts

-- `CapabilityDescriptor::tool`.
unfoldable pub tool : CapabilityDescriptor → Text → Option ToolDescriptor
unfolding find_tool
tool d name = find_tool name d.tools

pub record RejectedCapability : Type 0 where
  pub name : Text
  pub reason : Text

pub record AnnounceResult : Type 0 where
  pub accepted : List Text
  pub rejected : List RejectedCapability

unfoldable pub method_name : Text → Text → Text
method_name capability tool = capability ++ (b'.' ∷ tool)

-- `str::split_once`: the parts before and after the first separator.
unfoldable pub split_once : ℕ → Text → Option (Text × Text)
split_once sep [] = none
split_once sep (c ∷ cs) =
    if c == sep
    then some ([], cs)
    else elim (split_once sep cs) [ none ↦ none | some (before, after) ↦ some (c ∷ before, after) ]

unfoldable pub split_method : Text → Option (Text × Text)
unfolding split_once
split_method method = split_once b'.' method
