-- ===== src/Repository/Adapters.antt =====
-- The PostgreSQL repositories as implementations of the interfaces of internal/domain.
use signal_flow.Domain.Ports.{
  JobRepository, ExecutionRepository, ChannelRepository, NotificationRepository, UserRepository,
}
use signal_flow.Store.{Store}
use signal_flow.Repository.Job
use signal_flow.Repository.Claim
use signal_flow.Repository.Execution
use signal_flow.Repository.Channel
use signal_flow.Repository.Notification
use signal_flow.Repository.User

abbrev pub job_repository : JobRepository Store
job_repository = record {
  create = Job.create;
  get_by_id = Job.get_by_id;
  list = Job.list;
  list_active = Job.list_active;
  claim_due = Claim.claim_due;
  update = Job.update;
  delete = Job.delete;
  count_by_user = Job.count_by_user;
  count_active_by_user = Job.count_active_by_user;
}

abbrev pub execution_repository : ExecutionRepository Store
execution_repository = record {
  create = Execution.create;
  update = Execution.update;
  get_by_id = Execution.get_by_id;
  list_by_job = Execution.list_by_job;
  list_recent = Execution.list_recent;
  list_recent_by_user = Execution.list_recent_by_user;
  recover_stale_running = Execution.recover_stale_running;
  count_failures_by_user_since = Execution.count_failures_by_user_since;
  delete_older_than = Execution.delete_older_than;
}

abbrev pub channel_repository : ChannelRepository Store
channel_repository = record {
  create = Channel.create;
  get_by_id = Channel.get_by_id;
  get_by_ids = Channel.get_by_ids;
  list = Channel.list;
  update = Channel.update;
  delete = Channel.delete;
}

abbrev pub notification_repository : NotificationRepository Store
notification_repository = record {
  create = Notification.create;
  list_by_execution = Notification.list_by_execution;
  list_recent = Notification.list_recent;
  update_status = Notification.update_status;
  count_sent_by_user_since = Notification.count_sent_by_user_since;
}

abbrev pub user_repository : UserRepository Store
user_repository = record {
  create = User.create;
  get_by_id = User.get_by_id;
  get_by_email = User.get_by_email;
  update = User.update;
  delete = User.delete;
}
