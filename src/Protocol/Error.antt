-- ===== src/Protocol/Error.antt =====
-- The errors of the validators of crates/pam-desktop-protocol/src/lib.rs: one constructor for each
-- message, with the values that the message is formatted from, but for the error of the URL parser.
use pam_desktop.Prelude.{ℕ, Text, String}
use pam_desktop.Protocol.Codes.Updates.{UpdatePlatform, UpdateArtifactKind}

pub data Error : Type 0 where
  -- The shared grammars.
  identifier_empty identifier_malformed : String → Error
  accelerator_length : Error
  accelerator_malformed accelerator_modifier accelerator_key : Text → Error
  application_identifier_shape application_segment_empty application_segment_malformed : Error
  text_malformed : String → ℕ → Error
  version_malformed : Error
  path_outside : String → Error
  hex_malformed : String → ℕ → Error
  url_untrusted : String → Error
  -- Envelopes.
  protocol_incompatible : ℕ → Error
  not_a_response : Error
  response_id_mismatch : ℕ → ℕ → Error
  failure_without_error : Error
  plugin_protocol_incompatible : ℕ → Error
  plugin_request_identity plugin_response_identity : Error
  plugin_failure_without_error plugin_without_commands : Error
  plugin_command_duplicated : Text → Error
  -- Configuration.
  process_arguments process_path : Text → Error
  http_origin_invalid http_origin_unsafe database_path : Text → Error
  no_windows command_timeout worker_count : Error
  command_duplicated window_duplicated : Text → Error
  main_window_missing : Error
  job_duplicated rust_plugin_duplicated php_plugin_duplicated : Text → Error
  process_pool autosave idle_sleep budgets : Error
  profile_unregistered profile_parent_contract parent_unregistered : Text → Error
  url_scheme mime_without_slash mime_type : Text → Error
  icon_extension : Error
  exclusion_duplicated exclusion_required : Text → Error
  artifact_size : Error
  feed_schema : ℕ → Error
  release_without_artifacts : Error
  artifact_duplicated : UpdatePlatform → Text → UpdateArtifactKind → Error
  root_duplicated resource_duplicated : Text → Error
  root_path : Text → Error
  -- The shell.
  menu_duplicated : Text → Error
  too_many_items too_many_menus menus_without_tray : Error
  tray_menu_unregistered shortcut_duplicated shortcut_accelerator_duplicated : Text → Error
  too_many_quick_actions : Error
  quick_action_duplicated menu_empty : Text → Error
  menu_too_deep separator_with_content : Error
  item_duplicated item_with_children command_checked submenu_malformed : Text → Error
  -- Jobs, plugins and windows.
  job_interval job_initial_delay job_timeout job_attempts job_backoff : Text → Error
  plugin_arguments plugin_argument plugin_timeout plugin_roots : Text → Error
  plugin_root_duplicated : Text → Text → Error
  window_entry : Text → Error
  window_title window_size window_minimum : Error
