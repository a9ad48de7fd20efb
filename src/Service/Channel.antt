-- ===== src/Service/Channel.antt =====
-- internal/service/channel.go.
pub mod Laws
use signal_flow.Base.{
  String, Bool, ◌||◌, Option, List, not_found, invalid_input, M, pure, throw, map_err, ◌>>=◌, ◌>>◌,
  if◌then◌else◌, ◌==◌,
}
use signal_flow.Domain.{RawMessage, ChannelType, Channel}
use signal_flow.Domain.Ports.{ChannelRepository, Runtime}
use signal_flow.Service.Job.{wrap_error, given}

pub record CreateChannelInput : Type 0 where
  pub user_id : String
  pub name : String
  pub type : ChannelType
  pub config : RawMessage
  pub enabled : Bool

pub record UpdateChannelInput : Type 0 where
  pub name : Option String
  pub type : Option ChannelType
  pub config : Option RawMessage
  pub enabled : Option Bool

unfoldable pub new_channel : CreateChannelInput → String → Channel
new_channel input id = record {
  id = id;
  user_id = input.user_id;
  name = input.name;
  type = input.type;
  config = input.config;
  enabled = input.enabled;
  created_at = 0;
  updated_at = 0;
}

abbrev pub with_channel_fields : UpdateChannelInput → Channel → Channel
with_channel_fields input ch = record ch {
  name = given input.name ch.name;
  type = given input.type ch.type;
  config = given input.config ch.config;
  enabled = given input.enabled ch.enabled;
}

module _ {S : Type 0} (runtime : Runtime S) (repo : ChannelRepository S) where
  -- The part of Create behind its guard.
  unfoldable pub store_new : CreateChannelInput → M S Channel
  unfolding new_channel
  store_new input = do
    id ← runtime.new_uuid
    repo.create (new_channel input id)
    pure (new_channel input id)

  unfoldable pub create : CreateChannelInput → M S Channel
  unfolding store_new
  create input =
      if input.name == "" || input.type == ""
      then throw (record { kind = invalid_input; text = "invalid input: name and type required" })
      else store_new input

  unfoldable pub get_by_id : String → M S Channel
  get_by_id id = map_err (wrap_error not_found "not found") (repo.get_by_id id)

  unfoldable pub list : String → M S (List Channel)
  list user_id = repo.list user_id

  unfoldable pub update : String → UpdateChannelInput → M S Channel
  unfolding get_by_id
  update id input = do
    ch ← get_by_id id
    repo.update (with_channel_fields input ch)
    pure (with_channel_fields input ch)

  unfoldable pub delete : String → M S (Unit {0})
  delete id = repo.delete id
