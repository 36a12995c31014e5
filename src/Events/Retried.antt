-- ===== src/Events/Retried.antt =====
-- That a lost connection is tried again.
use repartee_desktop.Base.Maps.{Text_eq}
