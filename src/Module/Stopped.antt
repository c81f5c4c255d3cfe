-- ===== src/Module/Stopped.antt =====
-- mod_janus.c: no thread is left when the module is shut down.
use mod_janus.Base.Dict.{Dict, id_eq, name_eq}
use mod_janus.Threads.System.{System}
