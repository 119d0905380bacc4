-- ===== src/Model/Types.antt =====
-- The data of the configuration files.
use ssh_mountmate.Base.{ℕ, Bool, Option, List}
use ssh_mountmate.Text.{Text}

pub data AuthMethod : Type 0 where
  key password : AuthMethod

pub data ConnectionMethod : Type 0 where
  native openssh interactive : ConnectionMethod

pub data MountBackend : Type 0 where
  fuse nfs : MountBackend

pub data CredentialStorage : Type 0 where
  obscure system : CredentialStorage

pub data AppearanceMode : Type 0 where
  system light dark : AppearanceMode

pub data AccentColor : Type 0 where
  blue green amber purple custom : AccentColor

pub data FontScale : Type 0 where
  small standard large extra_large : FontScale

pub record MountMapping : Type 0 where
  pub id : Text
  pub remote_path : Text
  pub mountpoint : Text

pub record ServerConfig : Type 0 where
  pub primary_mount : Bool
  pub mounts : List MountMapping
  pub connection_id : Text
  pub id : Text
  pub name : Text
  pub folder : Text
  pub tags : List Text
  pub mode : Text
  pub source : Text
  pub host_alias : Text
  pub host : Text
  pub user : Text
  pub port : Text
  pub auth : AuthMethod
  pub key_file : Text
  pub password_obscured : Text
  pub key_pass_obscured : Text
  pub password_credential : Text
  pub key_pass_credential : Text
  pub connection_method : ConnectionMethod
  pub remote_path : Text
  pub mountpoint : Text
  pub auto_mount_at_login : Bool
  pub cache_mode : Text
  pub network_mode : Bool
  pub ssh_config_managed : Bool
  pub copy_key_to_ssh_dir : Bool
  pub managed_ssh_config_path : Text
  pub ssh_config_path : Text

pub record Settings : Type 0 where
  pub settings_schema_version : ℕ
  pub cache_root : Text
  pub vfs_cache_mode : Text
  pub vfs_cache_max_size : Text
  pub vfs_cache_max_age : Text
  pub vfs_cache_min_free_space : Text
  pub vfs_write_back : Text
  pub dir_cache_time : Text
  pub buffer_size : Text
  pub vfs_upload_transfers : ℕ
  pub macos_mount_backend : MountBackend
  pub credential_storage : CredentialStorage
  pub startup_all : Bool
  pub auto_show_transfers : Bool
  pub auto_check_updates : Bool
  pub language : Text
  pub appearance_mode : AppearanceMode
  pub accent_color : AccentColor
  pub custom_accent_color : Option Text
  pub font_scale : FontScale
