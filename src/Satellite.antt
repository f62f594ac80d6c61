-- ===== src/Satellite.antt =====
-- satellite/: the display that is fed over a serial line. The wire format is in Protocol, the host's
-- frames in Encoder and the host's loop in Feeder, the display's data in Data and its decoder in Receiver.
pub mod Protocol
pub mod Encoder
pub mod Data
pub mod Receiver
pub mod Wire
pub mod Bounds
pub mod Steps
pub mod Delivery
pub mod Display
pub mod Json
pub mod EndToEnd
pub mod Feeder
pub mod Feeding
pub mod Url
pub mod UrlRead
pub mod Serial
mod Examples
mod HostExamples
