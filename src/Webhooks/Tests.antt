-- ===== src/Webhooks/Tests.antt =====
-- The hosts of src/webhooks/Webhooks.hpp on concrete addresses.
use tarassov_me.Prelude.{◌≡◌, refl, true, false, codes}
use tarassov_me.Prelude.Int.{pos}
use tarassov_me.Utils.Strings.Prefix.{starts_with}
use tarassov_me.Webhooks.{at_scheme, url_host, host_is_blocked}

private_blocked : host_is_blocked (λ s. pos 20) (url_host (codes "http://172.20.0.1/x")) ≡ true
unfolding url_host at_scheme starts_with host_is_blocked
private_blocked = refl

-- A user name before the host hides it, and so does the address of all interfaces.
user_name_passes : host_is_blocked (λ s. pos 0) (url_host (codes "http://x@127.0.0.1/")) ≡ false
unfolding url_host at_scheme starts_with host_is_blocked
user_name_passes = refl

any_interface_passes : host_is_blocked (λ s. pos 0) (url_host (codes "http://0.0.0.0/")) ≡ false
unfolding url_host at_scheme starts_with host_is_blocked
any_interface_passes = refl

-- The colon ends the host, so the loopback of IPv6 is not recognised.
ipv6_loopback_passes : host_is_blocked (λ s. pos 0) (url_host (codes "http://[::1]/")) ≡ false
unfolding url_host at_scheme starts_with host_is_blocked
ipv6_loopback_passes = refl
