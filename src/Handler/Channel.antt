-- ===== src/Handler/Channel.antt =====
-- internal/handler/channel.go.
use signal_flow.Base.{String, true, Option}
use signal_flow.Domain.Ports.{ChannelRepository, Runtime}
use signal_flow.Service.Job.{given}
use signal_flow.Service.Channel
use signal_flow.Service.Channel.{CreateChannelInput, UpdateChannelInput}
use signal_flow.Handler.Http.{
  Handler, respond_json, empty, channel_data, channel_list, answer, with_body, user_id,
  CreateChannelRequest,
}

abbrev pub create_channel_input : String → CreateChannelRequest → CreateChannelInput
create_channel_input user req = record {
  user_id = user;
  name = req.name;
  type = req.type;
  config = req.config;
  enabled = given req.enabled true;
}

module _ {S : Type 0} (runtime : Runtime S) (repo : ChannelRepository S) where
  unfoldable pub list : Handler S
  unfolding answer Channel.list
  list r s =
      answer (λ channels. respond_json 200 (channel_list channels))
        (Channel.list runtime repo (user_id r) s)

  unfoldable pub create : (String → Option CreateChannelRequest) → Handler S
  unfolding answer with_body Channel.create
  create decode r = with_body (decode r.body) λ req s.
      answer (λ ch. respond_json 201 (channel_data ch))
        (Channel.create runtime repo (create_channel_input (user_id r) req) s)

  unfoldable pub get : Handler S
  unfolding answer Channel.get_by_id
  get r s =
      answer (λ ch. respond_json 200 (channel_data ch)) (Channel.get_by_id runtime repo r.id s)

  -- The request's fields are those of the service's input.
  unfoldable pub update : (String → Option UpdateChannelInput) → Handler S
  unfolding answer with_body Channel.update
  update decode r = with_body (decode r.body) λ req s.
      answer (λ ch. respond_json 200 (channel_data ch)) (Channel.update runtime repo r.id req s)

  unfoldable pub delete : Handler S
  unfolding answer Channel.delete
  delete r s = answer (λ _. respond_json 204 empty) (Channel.delete runtime repo r.id s)
