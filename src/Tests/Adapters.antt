-- ===== src/Tests/Adapters.antt =====
-- The adapters at concrete inputs.
use nyro.Base.{◌≡◌, true, arith}
use nyro.Base.Duration.{pos, negsuc, is_positive}
use nyro.Keys.{key_eq}
use nyro.Carts.Guard.{renewal_interval}
use nyro.Adapters.Resp.{RespConfig, cart_config_of}
use nyro.Adapters.Resp.Ttl.{cart_config_positive}

abbrev resp_config : RespConfig
resp_config = record { default_ttl = pos 0; lock_ttl = pos 0; lock_max_wait = negsuc 4 }

cart_config_positive_example :
    (is_positive (cart_config_of resp_config).lock_ttl ≡ true)
    × (is_positive (cart_config_of resp_config).lock_max_wait ≡ true)
    × (is_positive (renewal_interval (cart_config_of resp_config) (pos 9)) ≡ true)
cart_config_positive_example = cart_config_positive resp_config 9 (omega arith)
