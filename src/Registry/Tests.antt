-- ===== src/Registry/Tests.antt =====
-- Addresses of services, there and back.
use grodyia.Prelude.{◌≡◌, refl}
use grodyia.Prelude.Int.{pos}
use grodyia.Registry.Address.{parse_addr, format_addr}

address_back : parse_addr (format_addr "10.0.0.7" (pos 8500)) (pos 80) ≡ ("10.0.0.7", pos 8500)
unfolding parse_addr format_addr
address_back = refl

address_default : parse_addr "localhost:http" (pos 80) ≡ ("localhost", pos 80)
unfolding parse_addr
address_default = refl
