-- ===== src/Permissions.antt =====
-- apps/api/src/services/platform-permissions.ts: which role has which permission of the platform.
use employee_attendance.Prelude.{◌≡◌, Bool, true, false, arith}
use employee_attendance.Sessions.{AppRole, app_manager, app_admin, app_global_admin, app_dev_admin}

pub data PlatformPermission : Type 0 where
  organizations_read organizations_write admins_read admins_write global_admins_manage audit_read
        system_read tenant_operations :
      PlatformPermission

-- `hasPlatformPermission`, with the table `permissionsByRole`.
unfoldable pub has_platform_permission : AppRole → PlatformPermission → Bool
has_platform_permission app_manager tenant_operations = true
has_platform_permission app_admin organizations_read = true
has_platform_permission app_admin tenant_operations = true
has_platform_permission app_global_admin organizations_read = true
has_platform_permission app_global_admin admins_read = true
has_platform_permission app_dev_admin _ = true
has_platform_permission _ _ = false

abbrev pub is_writing : PlatformPermission → Bool
is_writing organizations_write = true
is_writing admins_write = true
is_writing global_admins_manage = true
is_writing _ = false

-- A permission that changes the platform is the developer administrator's alone.
pub only_dev_admin_writes :
    (role : AppRole) (p : PlatformPermission)
    → is_writing p ≡ true
    → has_platform_permission role p ≡ true
    → role ≡ app_dev_admin
unfolding has_platform_permission
only_dev_admin_writes role p w h = ground arith
