-- ===== src/Linux/Service/Privileges.antt =====
-- linux/linux_disk_service.cpp, privilegeMode(), and the first checks of runHelperRestore().

use usb_restoration_tool.Linux.Client.{Reader}
use usb_restoration_tool.Linux.Client.Run.{
  Host, run_helper_restore, no_helper, no_pkexec, judge_client,
}
use usb_restoration_tool.Linux.Service.{privilege_mode, no_privilege}
use usb_restoration_tool.Prelude.{◌≡◌, ◌↔◌, ◌⊎◌, false, arith, err}

-- Without root, the window says that there is no way to get permission exactly when a restore would
-- be refused because the helper or pkexec is missing.
pub privilege_mode-run_helper_restore :
    (reader : Reader) (host : Host)
    → (privilege_mode false host ≡ no_privilege) ↔ (
        (run_helper_restore reader host ≡ err no_helper)
        ⊎ (run_helper_restore reader host ≡ err no_pkexec))
unfolding privilege_mode run_helper_restore judge_client
privilege_mode-run_helper_restore reader host = ground arith
