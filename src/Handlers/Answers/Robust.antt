-- ===== src/Handlers/Answers/Robust.antt =====
-- Sources/GDBRemote/Session.cpp: the handlers that no text of arguments can stop.
use ds.Handlers.World.{World}
